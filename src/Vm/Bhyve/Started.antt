-- ===== src/Vm/Bhyve/Started.antt =====
-- The state in which a start of the bhyve backend leaves a machine.
use bmd.Prelude.{◌≡◌, ◌⊎◌, ◌||◌, Option, none, some, Str, codes, case_eq, arith, if◌then◌else◌, inr}
use bmd.Conf.{VmConf}
use bmd.Vm.{State, Vm, Spawn, Rc, ok, err, dies}
use bmd.Vm.Bhyve.{
  bhyve_load, exec_bhyve, grub_load, write_mapfile, copy_uefi_vars, start_bhyve, start_loader,
  choose_start, ◌then_start◌,
}

-- If the start succeeds, the state is `st` and the process is the forked one.
abbrev StartsAs : State → Spawn → Rc × Vm → Type 0
StartsAs st sp r = r.0 ≡ ok → (r.1.state ≡ st) × (r.1.pid ≡ sp.fork)

bhyve_load-StartsAs : (sp : Spawn) (vm : Vm) → StartsAs State.load sp (bhyve_load sp vm)
unfolding bhyve_load
bhyve_load-StartsAs sp vm h = ground arith

exec_bhyve-StartsAs : (sp : Spawn) (vm : Vm) → StartsAs State.run sp (exec_bhyve sp vm)
unfolding exec_bhyve
exec_bhyve-StartsAs sp vm h = ground arith

grub_load-StartsAs : (sp : Spawn) (vm : Vm) → StartsAs State.load sp (grub_load sp vm)
unfolding grub_load
grub_load-StartsAs sp vm h = ground arith

then_start-StartsAs :
    (st : State) (sp : Spawn) (r : Rc × Vm) (f : Vm → Rc × Vm)
    → ((vm : Vm) → StartsAs st sp (f vm))
    → StartsAs st sp (r then_start f)
unfolding ◌then_start◌
then_start-StartsAs st sp (ok, vm) f live h = live vm h
then_start-StartsAs st sp (err, vm) f live h = cc
then_start-StartsAs st sp (dies, vm) f live h = cc

-- The state that a loader leads to.
abbrev pub loaded_state : Str → State
loaded_state loader =
    if case_eq loader (codes "bhyveload") || case_eq loader (codes "grub")
    then State.load
    else State.run

start_loader-StartsAs :
    (vars_dir loader : Str) (sp : Spawn) (conf : VmConf) (vm : Vm)
    → StartsAs (loaded_state loader) sp (start_loader vars_dir loader sp conf vm)
unfolding start_loader
start_loader-StartsAs vars_dir loader sp conf vm h = ground (
  arith,
  bhyve_load-StartsAs sp vm,
  then_start-StartsAs State.load sp (write_mapfile sp.mapfile vm) (grub_load sp)
      (grub_load-StartsAs sp),
  then_start-StartsAs State.run sp (copy_uefi_vars vars_dir sp conf vm) (exec_bhyve sp)
      (exec_bhyve-StartsAs sp),
  exec_bhyve-StartsAs sp vm,
)

-- The state after a start: RUN if the loader had already run, else what the loader leads to.
abbrev pub started_state : State → Str → State
started_state State.load loader = State.run
started_state _ loader = loaded_state loader

choose_start-StartsAs :
    (st : State) (vars_dir loader : Str) (sp : Spawn) (conf : VmConf) (vm : Vm)
    → StartsAs (started_state st loader) sp (choose_start st (some loader) vars_dir sp conf vm)
unfolding choose_start
choose_start-StartsAs State.load vars_dir loader sp conf vm = exec_bhyve-StartsAs sp vm
choose_start-StartsAs _ vars_dir loader sp conf vm =
    start_loader-StartsAs vars_dir loader sp conf vm

given_start-StartsAs :
    (given : Option Str) (st : State) (vars_dir loader : Str) (sp : Spawn) (conf : VmConf) (vm : Vm)
    → given ≡ some loader
    → StartsAs (started_state st loader) sp (choose_start st given vars_dir sp conf vm)
given_start-StartsAs given st vars_dir loader sp conf vm h =
    rw h (choose_start-StartsAs st vars_dir loader sp conf vm)

-- A start of the bhyve backend that succeeds, with a loader that is given, leaves the machine
-- running if its loader had run, and otherwise loading for `bhyveload` and `grub` and running for
-- the other loaders; its process id is that of the forked child.
pub start_bhyve_started :
    (vars_dir loader : Str) (sp : Spawn) (conf : VmConf) (vm : Vm)
    → conf.loader ≡ some loader
    → (start_bhyve vars_dir sp conf vm).0 ≡ ok
    → ((start_bhyve vars_dir sp conf vm).1.state ≡ started_state vm.state loader)
      × ((start_bhyve vars_dir sp conf vm).1.pid ≡ sp.fork)
unfolding start_bhyve
start_bhyve_started vars_dir loader sp conf vm given =
    given_start-StartsAs conf.loader vm.state vars_dir loader sp conf vm given

-- A machine that a start can leave.
abbrev pub IsLive : Vm → Type 0
IsLive vm = (vm.state ≡ State.load) ⊎ (vm.state ≡ State.run)

live_state :
    (st x : State) (loader : Str) → x ≡ started_state st loader → (x ≡ State.load) ⊎ (x ≡ State.run)
live_state st x loader h = ground arith

choose_start-IsLive :
    (st : State) (loader : Option Str) (vars_dir : Str) (sp : Spawn) (conf : VmConf) (vm : Vm)
    → (choose_start st loader vars_dir sp conf vm).0 ≡ ok
    → IsLive (choose_start st loader vars_dir sp conf vm).1
choose_start-IsLive st (some loader) vars_dir sp conf vm h =
    live_state st _ loader (choose_start-StartsAs st vars_dir loader sp conf vm h).0
choose_start-IsLive st none vars_dir sp conf vm h = missing st h
  where
    missing :
        (s : State)
        → (choose_start s none vars_dir sp conf vm).0 ≡ ok
        → IsLive (choose_start s none vars_dir sp conf vm).1
    missing State.load h' = unfold choose_start in inr (exec_bhyve-StartsAs sp vm h').0
    missing _ h' = unfold choose_start in cc

-- A successful start leaves the machine loading or running, whatever the loader.
pub start_bhyve-IsLive :
    (vars_dir : Str) (sp : Spawn) (conf : VmConf) (vm : Vm)
    → (start_bhyve vars_dir sp conf vm).0 ≡ ok
    → IsLive (start_bhyve vars_dir sp conf vm).1
unfolding start_bhyve
start_bhyve-IsLive vars_dir sp conf vm =
    choose_start-IsLive vm.state conf.loader vars_dir sp conf vm
