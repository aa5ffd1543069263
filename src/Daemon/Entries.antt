-- ===== src/Daemon/Entries.antt =====
-- The entries of bmd.c: their comparison, the list of machines, and create_vm_entry.
use bmd.Prelude.{
  ◌+◌, ℤ, pos, is_zero, ◌==◌, Option, none, some, List, [], ◌∷◌, Str, str_eq, if◌then◌else◌,
}
use bmd.Conf.Nv.{compare_nvlist}
use bmd.Conf.Compare.{compare_vm_conf}
use bmd.Vm.{State, Vm, VmMethod}
use bmd.Daemon.{PluginData, VmConfEntry, VmEntry, Daemon}
use bmd.Daemon.Machine.{find_method}

-- The loop of compare_vm_conf_entry: it ends with the shorter list.
unfoldable pub compare_plugins : List PluginData → List PluginData → ℤ
compare_plugins [] bs = pos 0
compare_plugins (a ∷ xs) [] = pos 0
compare_plugins (a ∷ xs) (b ∷ ys) =
    let rest = compare_plugins xs ys in
    let rc = compare_nvlist a.pl_conf b.pl_conf in if is_zero rc then rest else rc

unfoldable pub compare_vm_conf_entry : VmConfEntry → VmConfEntry → ℤ
unfolding compare_plugins
compare_vm_conf_entry a b =
    let rc = compare_vm_conf a.conf b.conf in
    if is_zero rc then compare_plugins a.pl_data b.pl_data else rc

unfoldable pub lookup_vm_by_name : List VmEntry → Str → Option VmEntry
unfolding str_eq
lookup_vm_by_name [] name = none
lookup_vm_by_name (e ∷ es) name =
    let rest = lookup_vm_by_name es name in if str_eq e.conf.conf.name name then some e else rest

-- A write through a pointer to an entry.
unfoldable pub put_vm : VmEntry → List VmEntry → List VmEntry
put_vm e [] = []
put_vm e (x ∷ xs) = let rest = put_vm e xs in if x.addr == e.addr then e ∷ xs else x ∷ rest

unfoldable pub new_vm : Vm
new_vm = record {
  state = State.terminate;
  pid = none;
  taps = [];
  mapfile = none;
  varsfile = none;
  assigned_comport = none;
  infd = none;
  outfd = none;
  errfd = none;
  logfd = none;
}

unfoldable pub enter : VmConfEntry → Daemon → Option VmMethod → Option (VmEntry × Daemon)
unfolding new_vm
enter conf_ent d none = none
enter conf_ent d (some m) =
    let e : VmEntry = record {
      addr = d.world.next;
      vm = new_vm;
      conf = conf_ent;
      new_conf = none;
      method = m;
    } in
    some
      (e, record d { vm_list = e ∷ d.vm_list; world = record d.world { next = d.world.next + 1 } })

-- The entry is put in front of the list; `none` if no plugin has the backend's method.
unfoldable pub create_vm_entry : VmConfEntry → Daemon → Option (VmEntry × Daemon)
unfolding find_method enter
create_vm_entry conf_ent d = enter conf_ent d (find_method conf_ent.pl_data conf_ent.conf.backend)
