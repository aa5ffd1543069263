-- ===== src/Parser/Load.antt =====
-- load_config_file of parser.c: the files are parsed, the global sections of root's files set the
-- daemon's settings, and each section of a machine becomes a configuration.
pub mod Root
pub mod Checked
use bmd.Prelude.{
  ℕ, zero, suc, ◌+◌, ◌==◌, pos, Bool, true, false, Option, none, some, List, [], ◌∷◌, Str, codes,
  str_eq, is_some, get_elem?, if◌then◌else◌,
}
use bmd.Conf.{VmConf}
use bmd.Conf.Vars.{VarTree, Variables, set_var, set_var0}
use bmd.Conf.Create.{create_vm_conf, finalize_vm_conf}
use bmd.Conf.Create.Ids.{IdList}
use bmd.Daemon.{PluginData, VmConfEntry}
use bmd.Global.{GlobalConf, no_global_conf, merge_global_conf}
use bmd.Parser.Mpool.{Mpool, Expanded, mpool_expand, mpool_alloc}
use bmd.Parser.Sections.{CfSection, Loading, Run, SectionEnv, vm_conf_set_params}
use bmd.Parser.Sections.Plugins.{PluginEntry, create_plugin_data}
use bmd.Parser.Globals.{gl_conf_set_params}
use bmd.Parser.Files.{ParserContext, FileEnv, push_file, clear_applied, check_duplicate}
use bmd.Parser.Parse.{Parsed, parse}

-- What the loader asks of the system: getpwuid(3), and the plugins in a directory.
pub record LoadEnv : Type 0 where
  pub files : FileEnv
  pub sections : SectionEnv
  pub getpwuid : ℕ → Option Str
  pub plugins : Option Str → List PluginEntry

-- `true` is 0. The name is never NULL.
unfoldable pub check_conf : VmConf → Bool
unfolding str_eq
check_conf conf =
    if is_some conf.ncpu
    then (if is_some conf.memory
        then (if str_eq conf.backend (codes "bhyve") then is_some conf.loader else true)
        else false)
    else false

-- The loop over the global sections; `none` is a fault.
unfoldable pub load_globals :
    GlobalConf → Variables → List CfSection → Option (GlobalConf × Variables)
unfolding gl_conf_set_params
load_globals gc vars [] = some (gc, vars)
load_globals gc vars (s ∷ ss) =
    let rest = load_globals gc vars ss in
    let set : Option (GlobalConf × Variables) = elim (gl_conf_set_params gc vars s.params) [
      | none ↦ none
      | some (gc', vars') ↦ load_globals gc' vars' ss
    ] in
    if s.owner == 0 then set else rest

-- The variables OWNER and GROUP of a new configuration.
set_owner_var : Option Str → Variables → Variables
unfolding set_var
set_owner_var none vars = vars
set_owner_var (some name) vars = (set_var vars (codes "OWNER") name).1

unfoldable pub new_conf : LoadEnv → VarTree → CfSection → VmConf → VmConf
unfolding set_owner_var set_var
new_conf x gv s conf =
    let vars = record conf.vars { global = some gv } in
    record conf {
      vars = (set_var (set_owner_var (x.getpwuid s.owner) vars) (codes "GROUP") []).1;
      owner = pos s.owner;
    }

pub data Vms : Type 0 where
  vms : IdList → List VmConfEntry → Vms
  fault out_of_fuel : Vms

-- A configuration that lacks what it needs is dropped; another one goes to the head of the list.
unfoldable pub accept : Loading → List VmConfEntry → List VmConfEntry
unfolding check_conf finalize_vm_conf
accept st list =
    let conf = finalize_vm_conf st.conf in
    if check_conf conf then record { conf = conf; pl_data = st.pl_data } ∷ list else list

-- The loop over the sections of machines.
unfoldable pub load_vms :
    LoadEnv
    → ℕ
    → VarTree
    → List PluginData
    → List CfSection
    → List CfSection
    → IdList
    → List VmConfEntry
    → Vms
unfolding create_vm_conf new_conf clear_applied vm_conf_set_params accept
load_vms x fuel gv pl templates [] ids list = vms ids list
load_vms x fuel gv pl templates (s ∷ ss) ids list =
    let (ids', conf) = create_vm_conf ids s.name in
    elim (vm_conf_set_params fuel x.sections s.params
      (record { conf = new_conf x gv s conf; pl_data = pl; templates = clear_applied templates })) [
        | Run.done st ↦ load_vms x fuel gv pl st.templates ss ids' (accept st list)
        | Run.fault ↦ fault
        | Run.out_of_fuel ↦ out_of_fuel
      ]
