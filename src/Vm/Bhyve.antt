-- ===== src/Vm/Bhyve.antt =====
-- The bhyve backend of vm.c, as the daemon's process sees it. Allocations succeed.
pub mod Started
use bmd.Prelude.{
  ℕ, Bool, true, false, not, ◌&&◌, Option, none, some, List, ◌++◌, Str, codes, case_eq,
  if◌then◌else◌, is_some,
}
use bmd.Conf.{VmConf}
use bmd.Vm.{
  State, Vm, Signal, Spawn, MapReply, Rc, ok, err, dies, VmMethod, sigterm, sigkill, suspend_reset,
  suspend_poweroff,
}

-- Whether the output goes through pipes: the com port is not stdio.
do_pipe : Option Str → Bool
do_pipe none = true
do_pipe (some port) = not (case_eq port (codes "stdio"))

with_pipes : Option (ℕ × ℕ) → Vm → Vm
with_pipes none vm = vm
with_pipes (some (r, s)) vm = record vm { outfd = some r; errfd = some s }

-- The parent's side of a fork(2) that succeeds.
forked : Option (ℕ × ℕ) → ℕ → State → Vm → Vm
forked pipes pid st vm = record (with_pipes pipes vm) { pid = some pid; state = st }

-- The pipes that a start needs: `none` if pipe(2) fails, `some none` if it needs none.
pipes_for : Spawn → Vm → Option (Option (ℕ × ℕ))
pipes_for sp vm =
    if do_pipe vm.assigned_comport
    then elim sp.pipes [ none ↦ none | some p ↦ some (some p) ]
    else some none

-- A child with pipes, and what a failure of fork(2) means.
pub spawn : Rc → State → Spawn → Vm → Rc × Vm
spawn no_fork st sp vm = elim (pipes_for sp vm) [
  | none ↦ (err, vm)
  | some pipes ↦ elim sp.fork [ none ↦ (no_fork, vm) | some pid ↦ (ok, forked pipes pid st vm) ]
]

unfoldable pub bhyve_load : Spawn → Vm → Rc × Vm
unfolding spawn pipes_for do_pipe forked with_pipes
bhyve_load sp vm = spawn err State.load sp vm

-- Where fork(2) fails, this one calls exit(1).
unfoldable pub exec_bhyve : Spawn → Vm → Rc × Vm
unfolding spawn pipes_for do_pipe forked with_pipes
exec_bhyve sp vm = spawn dies State.run sp vm

unfoldable pub grub_load : Spawn → Vm → Rc × Vm
grub_load sp vm =
    if is_some sp.load_command && not (is_some sp.input) then (err, vm) else elim sp.fork [
      | none ↦ (err, vm)
      | some pid ↦ (
        ok,
        record vm {
          state = State.load;
          pid = some pid;
          infd = if is_some sp.load_command then sp.input else none;
          outfd = none;
          errfd = none;
        },
      )
    ]

unfoldable pub write_mapfile : MapReply → Vm → Rc × Vm
write_mapfile MapReply.not_made vm = (err, vm)
write_mapfile MapReply.not_written vm = (err, record vm { mapfile = none })
write_mapfile (MapReply.written fn) vm = (ok, record vm { mapfile = some fn })

vars_name : Option Str → Str → VmConf → Str
vars_name none vars_dir conf = vars_dir ++ codes "/" ++ conf.name ++ codes ".vars"
vars_name (some fn) vars_dir conf = fn

-- The version for FreeBSD 14 and later.
unfoldable pub copy_uefi_vars : Str → Spawn → VmConf → Vm → Rc × Vm
unfolding vars_name
copy_uefi_vars vars_dir sp conf vm =
    let vm' = record vm { varsfile = some (vars_name vm.varsfile vars_dir conf) } in
    if not conf.install && sp.vars_exist
    then (ok, vm')
    else if sp.vars_copied
    then (ok, vm')
    else (err, vm')

-- `if (f < 0 || g < 0) goto err`
infixl 10 ◌then_start◌
unfoldable pub ◌then_start◌ : Rc × Vm → (Vm → Rc × Vm) → Rc × Vm
(ok, vm) then_start f = f vm
(err, vm) then_start f = (err, vm)
(dies, vm) then_start f = (dies, vm)

unfoldable pub start_loader : Str → Str → Spawn → VmConf → Vm → Rc × Vm
start_loader vars_dir loader sp conf vm =
    if case_eq loader (codes "bhyveload")
    then bhyve_load sp vm
    else if case_eq loader (codes "grub")
    then write_mapfile sp.mapfile vm then_start grub_load sp
    else if case_eq loader (codes "uefi")
    then copy_uefi_vars vars_dir sp conf vm then_start exec_bhyve sp
    else if case_eq loader (codes "csm")
    then exec_bhyve sp vm
    else (err, vm)

-- In the state LOAD the loader has ended, and bhyve itself is started. A NULL loader is passed to
-- strcasecmp(3).
unfoldable pub choose_start : State → Option Str → Str → Spawn → VmConf → Vm → Rc × Vm
choose_start State.load loader vars_dir sp conf vm = exec_bhyve sp vm
choose_start _ none vars_dir sp conf vm = (dies, vm)
choose_start _ (some loader) vars_dir sp conf vm = start_loader vars_dir loader sp conf vm

unfoldable pub start_bhyve : Str → Spawn → VmConf → Vm → Rc × Vm
unfolding choose_start
start_bhyve vars_dir sp conf vm = choose_start vm.state conf.loader vars_dir sp conf vm

unfoldable pub reset_bhyve : VmConf → Vm → Signal
reset_bhyve conf vm = suspend_reset conf.name

unfoldable pub poweroff_bhyve : VmConf → Vm → Signal
poweroff_bhyve conf vm = elim vm.state [
  | State.load ↦ sigkill vm.pid
  | _ ↦ suspend_poweroff conf.name
]

unfoldable pub acpi_poweroff_bhyve : VmConf → Vm → Signal
acpi_poweroff_bhyve conf vm = sigterm vm.pid

-- The four descriptors are closed and the map file is unlinked.
unfoldable pub cleanup_bhyve : VmConf → Vm → Vm
cleanup_bhyve conf vm = record vm {
  state = State.terminate;
  mapfile = none;
  infd = none;
  outfd = none;
  errfd = none;
  logfd = none;
}

unfoldable pub bhyve_method : Str → VmMethod
unfolding reset_bhyve poweroff_bhyve acpi_poweroff_bhyve cleanup_bhyve
bhyve_method vars_dir = record {
  name = codes "bhyve";
  vm_start = start_bhyve vars_dir;
  vm_reset = reset_bhyve;
  vm_poweroff = poweroff_bhyve;
  vm_acpi_poweroff = acpi_poweroff_bhyve;
  vm_cleanup = cleanup_bhyve;
}
