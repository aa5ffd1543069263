-- ===== src/Parser/Sections/Plugins.antt =====
-- The plugins of bmd.c that the parser asks: call_plugin_parser, create_plugin_data and
-- vm_method_exists. What a plugin's own function does is a parameter.
use bmd.Prelude.{
  ℤ, pos, ltb_ℤ, Bool, true, false, Option, none, some, List, [], ◌∷◌, Str, str_eq, if◌then◌else◌,
}
use bmd.Conf.Nv.{NvList}
use bmd.Vm.{VmMethod}
use bmd.Daemon.{PluginData}

-- The function `parse_config` of a plugin: a result and the configuration that it leaves.
abbrev pub ParseConfig : Type 0
ParseConfig = NvList → Str → Str → ℤ × NvList

asked : PluginData → Option ParseConfig → Str → Str → ℤ × PluginData
asked pd none key val = (pos 1, pd)
asked pd (some f) key val =
    let (rc, conf) = f pd.pl_conf key val in (rc, record pd { pl_conf = conf })

-- The first plugin whose function returns 0, for a key of its own, or less, for a value that it
-- refuses, ends the search; 1 says that there is none.
unfoldable pub call_plugin_parser :
    (Str → Option ParseConfig) → List PluginData → Str → Str → ℤ × List PluginData
unfolding asked
call_plugin_parser parse_config [] key val = (pos 1, [])
call_plugin_parser parse_config (pd ∷ ps) key val =
    let (last, rest) = call_plugin_parser parse_config ps key val in
    let (rc, pd') = asked pd (parse_config pd.ent) key val in
    if ltb_ℤ (pos 0) rc then (last, pd' ∷ rest) else (rc, pd' ∷ ps)

-- `struct plugin_entry`: an installed plugin.
pub record PluginEntry : Type 0 where
  pub name : Str
  pub method : Option VmMethod

push_data : List PluginEntry → List PluginData → List PluginData
push_data [] head = head
push_data (p ∷ ps) head =
    push_data ps (record { ent = p.name; method = p.method; pl_conf = NvList.empty } ∷ head)

-- Memory is given: the function returns 0.
unfoldable pub create_plugin_data : List PluginEntry → List PluginData
unfolding push_data
create_plugin_data plugin_list = push_data plugin_list []

named : Option VmMethod → Str → Bool
unfolding str_eq
named none name = false
named (some m) name = str_eq m.name name

unfoldable pub vm_method_exists : List PluginEntry → Str → Bool
unfolding named
vm_method_exists [] name = false
vm_method_exists (p ∷ ps) name =
    let rest = vm_method_exists ps name in if named p.method name then true else rest
