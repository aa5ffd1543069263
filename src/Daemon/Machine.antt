-- ===== src/Daemon/Machine.antt =====
-- How bmd.c starts and stops one virtual machine, and the handlers of its timer and of its exit.
-- The callbacks `on_status_change` of plugins are not modelled: they get the machine to look at.
pub mod Watched
pub mod Start
pub mod Exit
pub mod Kept
pub mod Fixed
pub mod Grows
use bmd.Prelude.{
  ℕ, ℤ, pos, ltb_ℤ, max_ℤ, Bool, true, false, not, ◌&&◌, ◌||◌, ◌==◌, Option, none, some, List, [],
  ◌∷◌, Str, codes, str_eq, is_some, if◌then◌else◌,
}
use bmd.Conf.{Boot, VmConf}
use bmd.Vm.{State, Vm, VmMethod, Signal, Rc, ok, err, dies}
use bmd.Vm.Taps.{remove_taps, activate_taps, assign_taps}
use bmd.Daemon.{PluginData, VmConfEntry, VmEntry, Event, World, Env}
use bmd.Daemon.Comport.{assign_comport}
use bmd.Daemon.Events.{
  vm_output, vm_output_and_timers, of_target, stop_waiting_for, set_timer, wait_for_vm,
  wait_for_vm_output, send,
}

-- The first plugin whose method has the name of the backend.
unfoldable pub find_method : List PluginData → Str → Option VmMethod
unfolding str_eq
find_method [] backend = none
find_method (pd ∷ pds) backend =
    let rest = find_method pds backend in
    elim pd.method [ none ↦ rest | some m ↦ if str_eq m.name backend then some m else rest ]

pub give_method : VmEntry → Option VmMethod → Option VmEntry
give_method e none = none
give_method e (some m) = some (record e { method = m })

unfoldable pub set_vm_method : VmEntry → Option VmEntry
set_vm_method e = give_method e (find_method e.conf.pl_data e.conf.conf.backend)

unfoldable pub cleanup_virtual_machine : Env → VmEntry → VmEntry
cleanup_virtual_machine env e = record e {
  vm = e.method.vm_cleanup e.conf.conf (remove_taps env.remove e.vm).1;
}

-- The taps of a machine that is not running.
pub bring_up : Env → VmEntry → Bool × VmEntry
bring_up env e = elim e.vm.state [
  | State.terminate ↦
      let (up, vm') = assign_taps env.taps e.conf.conf e.vm in
      let down = (remove_taps env.remove vm').1 in
      if not up
      then (false, record e { vm = vm' })
      else if activate_taps env.activate
      then (true, record e { vm = vm' })
      else (false, record e { vm = down })
  | _ ↦ (true, e)
]

-- `if (VM_STATE(vm_ent) == LOAD && conf->loader_timeout > 0 && set_timer(...) < 0)`
pub loader_timer : Env → VmEntry → World → Bool × World
loader_timer env e w = elim e.vm.state [
  | State.load ↦
      let timed = set_timer env.timer_event e e.conf.conf.loader_timeout w in
      if ltb_ℤ (pos 0) e.conf.conf.loader_timeout then timed else (true, w)
  | _ ↦ (true, w)
]

pub open_log : Env → VmEntry → VmEntry
open_log env e =
    if is_some e.conf.conf.err_logfile && not (is_some e.vm.logfd)
    then record e { vm = record e.vm { logfd = env.log } }
    else e

-- The end of a start, once the child runs.
pub watch : Env → VmEntry → World → Rc × VmEntry × World
watch env e w =
    let (proc, w1) = wait_for_vm env.proc_event e w in
    let (out, w2) = wait_for_vm_output env.output_event e w1 in
    let (timed, w3) = loader_timer env e w2 in
    let kill = e.method.vm_poweroff e.conf.conf e.vm in
    if not proc
    then (err, cleanup_virtual_machine env e, send kill w1)
    else if not out
    then (err, cleanup_virtual_machine env e, send kill w2)
    else if not timed
    then (err, e, w3)
    else (ok, open_log env e, w3)

pub launched : Env → VmEntry → World → Rc × Vm → Rc × VmEntry × World
launched env e w (ok, vm) = watch env (record e { vm = vm }) w
launched env e w (err, vm) = (err, cleanup_virtual_machine env (record e { vm = vm }), w)
launched env e w (dies, vm) = (dies, record e { vm = vm }, record w { dead = true })

pub prepared : Env → World → Bool × VmEntry → Rc × VmEntry × World
prepared env w (false, e) = (err, e, w)
prepared env w (true, e) = launched env e w (e.method.vm_start env.spawn e.conf.conf e.vm)

-- The steps in the order of the source; each failure returns -1 at once. `used` are the com ports
-- of all machines.
pub with_method : Env → List (Option Str) → World → VmEntry → Rc × VmEntry × World
with_method env used w e =
    let (assigned, vm') = assign_comport env w.nmdm_offset used e.conf.conf e.vm in
    if assigned
    then prepared env w (bring_up env (record e { vm = vm' }))
    else (err, record e { vm = vm' }, w)

pub if_method : Env → List (Option Str) → VmEntry → World → Option VmEntry → Rc × VmEntry × World
if_method env used e w none = (err, e, w)
if_method env used e w (some e') = with_method env used w e'

unfoldable pub start_virtual_machine :
    Env → List (Option Str) → VmEntry → World → Rc × VmEntry × World
start_virtual_machine env used e w = if_method env used e w (set_vm_method e)

unfoldable pub stop_virtual_machine : Env → VmEntry → World → VmEntry × World
stop_virtual_machine env e w =
    (cleanup_virtual_machine env e, stop_waiting_for (vm_output_and_timers e) w)

unfoldable pub on_timer : Env → List (Option Str) → VmEntry → World → VmEntry × World
on_timer env used e w = elim e.vm.state [
  | State.terminate ↦ let (rc, e', w') = start_virtual_machine env used e w in (e', w')
  | State.run ↦ (e, w)
  | _ ↦ (e, send (e.method.vm_poweroff e.conf.conf e.vm) w)
]

-- What waitpid(2) reports.
pub data Status : Type 0 where
  exited signaled stopped : ℕ → Status

-- A machine stays on the list or is freed.
pub data Fate : Type 0 where
  kept : VmEntry → Fate
  freed : Fate

abbrev is_exited : Status → Bool
is_exited (exited code) = true
is_exited _ = false

abbrev exits_with_zero : Status → Bool
exits_with_zero (exited code) = code == 0
exits_with_zero _ = false

abbrev is_always : Boot → Bool
is_always Boot.always = true
is_always _ = false

-- Whether a running machine is started again when its process ends.
unfoldable pub reboots : VmConf → Status → Bool
unfolding str_eq
reboots conf status =
    not conf.install
    && is_exited status
    && (is_always conf.boot || (str_eq conf.backend (codes "bhyve") && exits_with_zero status))

pub started_again : Rc × VmEntry × World → Fate × World
started_again (rc, e, w) = (kept e, w)

pub after_stop : VmEntry × World → Fate × World
after_stop (e, w) =
    (kept (record e { conf = record e.conf { conf = record e.conf.conf { install = false } } }), w)

-- The switch of on_vm_exit.
pub exit_in : State → Env → List (Option Str) → Status → VmEntry → World → Fate × World
exit_in State.load env used status e w =
    let loaded = record e { vm = record e.vm { infd = none } } in
    let again =
      started_again
        (start_virtual_machine env used loaded (stop_waiting_for (vm_output loaded) w)) in
    let (e', w') = stop_virtual_machine env e w in
    if exits_with_zero status then again else (kept e', w')
exit_in State.restart env used status e w =
    let (e', w') = stop_virtual_machine env e w in
    let down = record e' { vm = record e'.vm { state = State.terminate } } in
    (kept down, (set_timer env.timer_event down (max_ℤ down.conf.conf.boot_delay (pos 3)) w').1)
exit_in State.run env used status e w =
    let again = started_again (start_virtual_machine env used e w) in
    let down = after_stop (stop_virtual_machine env e w) in
    if reboots e.conf.conf status then again else down
exit_in State.stop env used status e w = after_stop (stop_virtual_machine env e w)
exit_in State.remove env used status e w =
    let (e', w') = stop_virtual_machine env e w in (freed, stop_waiting_for (of_target e.addr) w')
exit_in State.terminate env used status e w = (kept e, w)

unfoldable pub on_vm_exit : Env → List (Option Str) → Status → VmEntry → World → Fate × World
unfolding exit_in started_again after_stop
on_vm_exit env used status e w = exit_in e.vm.state env used status e w
