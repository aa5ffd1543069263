-- ===== src/Daemon/Machine/Watched.antt =====
-- What a backend promises, and the events that a start registers for the exit of a process.
use bmd.Prelude.{
  ℕ, ◌≡◌, refl, ◌⊎◌, Bool, true, false, ◌&&◌, ◌==◌, leb, Option, none, some, List, Str, arith,
}
use bmd.Conf.{VmConf}
use bmd.Vm.{State, Vm, VmMethod, Spawn, Rc, ok, err, dies}
use bmd.Vm.Bhyve.{bhyve_method}
use bmd.Vm.Bhyve.Started.{start_bhyve-IsLive}
use bmd.Vm.Taps.{remove_taps}
use bmd.Daemon.{Event, Filter, Callback, VmEntry, World, Env}
use bmd.Daemon.Events.{same_ptr, pid_ident, wait_for_vm, wait_for_vm_output}
use bmd.Daemon.Events.Timers.{any, set_timer-any, wait_for_vm-any, wait_for_vm_output-any}
use bmd.Daemon.Events.{send}
use bmd.Daemon.Comport.{assign_comport}
use bmd.Daemon.Machine.{
  set_vm_method, cleanup_virtual_machine, open_log, loader_timer, watch, launched, prepared,
  bring_up, with_method, if_method, start_virtual_machine,
}

-- What the daemon relies on in a backend: a start that succeeds leaves the machine loading or
-- running, and a cleanup leaves it terminated.
pub record IsBackend (m : VmMethod) : Type 0 where
  pub started :
      (sp : Spawn) (c : VmConf) (vm : Vm)
      → (m.vm_start sp c vm).0 ≡ ok
      → ((m.vm_start sp c vm).1.state ≡ State.load) ⊎ ((m.vm_start sp c vm).1.state ≡ State.run)
  pub cleaned : (c : VmConf) (vm : Vm) → (m.vm_cleanup c vm).state ≡ State.terminate

-- The bhyve backend is one.
pub bhyve_method-IsBackend : (vars_dir : Str) → IsBackend (bhyve_method vars_dir)
unfolding bhyve_method
bhyve_method-IsBackend vars_dir = record {
  started = start_bhyve-IsLive vars_dir;
  cleaned = λ c vm. refl;
}

abbrev pub is_exit_callback : Callback → Bool
is_exit_callback Callback.on_vm_exit = true
is_exit_callback _ = false

abbrev pub is_proc : Filter → Bool
is_proc Filter.proc_filter = true
is_proc _ = false

-- An event, not older than `lo`, that calls on_vm_exit for this machine when this process ends.
abbrev pub is_exit_of : ℕ → ℕ → ℕ → Event → Bool
is_exit_of lo addr pid ev =
    leb lo ev.key
    && is_exit_callback ev.cb
    && is_proc ev.filter
    && ev.oneshot
    && ev.ident == pid
    && same_ptr ev.target (some addr)

abbrev pub exit_pending : ℕ → ℕ → ℕ → List Event → Bool
exit_pending lo addr pid evs = any (is_exit_of lo addr pid) evs

abbrev pub IsWatched : ℕ → VmEntry → World → Type 0
IsWatched lo e w =
    (e.vm.state ≡ State.terminate)
    ⊎ (exit_pending lo e.addr (pid_ident e.vm.pid) w.event_list ≡ true)

-- An event that is awaited stays so during a start.
pub loader_timer-any :
    (p : Event → Bool) (env : Env) (e : VmEntry) (w : World)
    → any p w.event_list ≡ true
    → any p (loader_timer env e w).1.event_list ≡ true
unfolding loader_timer
loader_timer-any p env e w h =
    ground (arith, set_timer-any p env.timer_event e e.conf.conf.loader_timeout w h)

pub wait_for_vm_pending :
    (taken : Bool) (e : VmEntry) (w : World)
    → (wait_for_vm taken e w).0 ≡ true
    → exit_pending w.next e.addr (pid_ident e.vm.pid) (wait_for_vm taken e w).1.event_list ≡ true
unfolding wait_for_vm
wait_for_vm_pending taken e w h = ground arith

pub cleaned_up :
    (env : Env) (e : VmEntry)
    → IsBackend e.method
    → (cleanup_virtual_machine env e).vm.state ≡ State.terminate
unfolding cleanup_virtual_machine
cleaned_up env e b = b.cleaned e.conf.conf (remove_taps env.remove e.vm).1

pub watch-IsWatched :
    (env : Env) (e : VmEntry) (w : World)
    → IsBackend e.method
    → IsWatched w.next (watch env e w).1 (watch env e w).2
unfolding watch open_log
watch-IsWatched env e w b =
    let p = is_exit_of w.next e.addr (pid_ident e.vm.pid) in
    let w1 = (wait_for_vm env.proc_event e w).1 in
    let w2 = (wait_for_vm_output env.output_event e w1).1 in
    ground (
      arith,
      cleaned_up env e b,
      wait_for_vm_pending env.proc_event e w,
      wait_for_vm_output-any p env.output_event e w1,
      loader_timer-any p env e w2,
    )

pub watch-any :
    (p : Event → Bool) (env : Env) (e : VmEntry) (w : World)
    → any p w.event_list ≡ true
    → any p (watch env e w).2.event_list ≡ true
unfolding watch send
watch-any p env e w h =
    let w1 = (wait_for_vm env.proc_event e w).1 in
    let w2 = (wait_for_vm_output env.output_event e w1).1 in
    ground (
      arith,
      wait_for_vm-any p env.proc_event e w h,
      wait_for_vm_output-any p env.output_event e w1,
      loader_timer-any p env e w2,
    )

pub launched-any :
    (p : Event → Bool) (env : Env) (e : VmEntry) (w : World) (r : Rc × Vm)
    → any p w.event_list ≡ true
    → any p (launched env e w r).2.event_list ≡ true
unfolding launched
launched-any p env e w (ok, vm) h = watch-any p env (record e { vm = vm }) w h
launched-any p env e w (err, vm) h = h
launched-any p env e w (dies, vm) h = h

pub prepared-any :
    (p : Event → Bool) (env : Env) (w : World) (x : Bool × VmEntry)
    → any p w.event_list ≡ true
    → any p (prepared env w x).2.event_list ≡ true
unfolding prepared
prepared-any p env w (true, e) h =
    launched-any p env e w (e.method.vm_start env.spawn e.conf.conf e.vm) h
prepared-any p env w (false, e) h = h

pub if_method-any :
    (p : Event → Bool) (env : Env) (used : List (Option Str)) (e : VmEntry) (w : World)
    (given : Option VmEntry)
    → any p w.event_list ≡ true
    → any p (if_method env used e w given).2.event_list ≡ true
unfolding if_method with_method
if_method-any p env used e w none h = h
if_method-any p env used e w (some e') h =
    let vm' = (assign_comport env w.nmdm_offset used e'.conf.conf e'.vm).1 in
    ground (arith, prepared-any p env w (bring_up env (record e' { vm = vm' })) h)

pub start_virtual_machine-any :
    (p : Event → Bool) (env : Env) (used : List (Option Str)) (e : VmEntry) (w : World)
    → any p w.event_list ≡ true
    → any p (start_virtual_machine env used e w).2.event_list ≡ true
unfolding start_virtual_machine
start_virtual_machine-any p env used e w h = if_method-any p env used e w (set_vm_method e) h
