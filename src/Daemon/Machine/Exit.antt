-- ===== src/Daemon/Machine/Exit.antt =====
-- What the handler of a machine's exit does in each state.
use bmd.Prelude.{
  ℕ, ◌≡◌, refl, ◌⊎◌, inl, inr, Bool, true, false, ℤ, pos, max_ℤ, Option, none, some, List, Str,
  arith, if◌then◌else◌,
}
use bmd.Vm.{State, VmMethod, Rc}
use bmd.Daemon.{VmEntry, World, Env}
use bmd.Daemon.Events.{vm_output, vm_output_and_timers, of_target, stop_waiting_for, set_timer}
use bmd.Daemon.Events.Timers.{count, count-without}
use bmd.Daemon.Machine.{
  find_method, cleanup_virtual_machine, stop_virtual_machine, reboots, exits_with_zero,
  start_virtual_machine, Status, Fate, kept, freed, started_again, after_stop, exit_in, on_vm_exit,
}
use bmd.Daemon.Machine.Start.{IsStarted, start_virtual_machine-IsStarted}
use bmd.Daemon.Machine.Watched.{IsBackend, cleaned_up}

-- The machine is kept and down, with this `install` parameter and this many events on its list
-- that are its timers or wait for its output.
abbrev pub IsDown : VmEntry → Bool → ℕ → Fate × World → Type 0
IsDown e install n (kept e', w) =
    (e'.vm.state ≡ State.terminate)
    × (e'.conf.conf.install ≡ install)
    × (count (vm_output_and_timers e) w.event_list ≡ n)
IsDown e install n (freed, w) = ⊥

-- The machine was started again, with `s` as the outcome of the start: the daemon's process has
-- ended, or the machine is terminated or watched, or the start returned -1 and left its state.
abbrev pub IsUpAgain : ℕ → State → Rc × VmEntry × World → Fate × World → Type 0
IsUpAgain lo st s r = (r ≡ (kept s.1, s.2)) × IsStarted lo st s

-- A machine whose loader has ended: it has no input, and its output is not waited for.
abbrev pub loaded_entry : VmEntry → VmEntry
loaded_entry e = record e { vm = record e.vm { infd = none } }

abbrev loaded_world : VmEntry → World → World
loaded_world e w = stop_waiting_for (vm_output (loaded_entry e)) w

-- The outcome that each state of the machine calls for.
abbrev pub ExitOutcome :
    Env → List (Option Str) → Status → VmEntry → World → State → Fate × World → Type 0
ExitOutcome env used status e w State.load r =
    ((exits_with_zero status ≡ true)
      × IsUpAgain w.next e.vm.state
          (start_virtual_machine env used (loaded_entry e) (loaded_world e w)) r)
    ⊎ ((exits_with_zero status ≡ false) × IsDown e e.conf.conf.install 0 r)
ExitOutcome env used status e w State.run r =
    ((reboots e.conf.conf status ≡ true)
      × IsUpAgain w.next e.vm.state (start_virtual_machine env used e w) r)
    ⊎ ((reboots e.conf.conf status ≡ false) × IsDown e false 0 r)
ExitOutcome env used status e w State.stop r = IsDown e false 0 r
ExitOutcome env used status e w State.restart r =
    IsDown e e.conf.conf.install (if env.timer_event then 1 else 0) r
ExitOutcome env used status e w State.remove r =
    (r.0 ≡ freed) × (count (of_target e.addr) r.1.event_list ≡ 0)
ExitOutcome env used status e w State.terminate r = r ≡ (kept e, w)

started_again-IsUpAgain :
    (lo : ℕ) (st : State) (r : Rc × VmEntry × World)
    → IsStarted lo st r
    → IsUpAgain lo st r (started_again r)
unfolding started_again
started_again-IsUpAgain lo st (rc, e, w) h = (refl, h)

test_cases :
    (P Q : Fate × World → Type 0) (test : Bool) (x y : Fate × World)
    → P x
    → Q y
    → ((test ≡ true) × P (if test then x else y)) ⊎ ((test ≡ false) × Q (if test then x else y))
test_cases P Q true x y hx hy = inl (refl, hx)
test_cases P Q false x y hx hy = inr (refl, hy)

module _ (env : Env) (e : VmEntry) (w : World) (b : IsBackend e.method) where
  stopped-IsDown :
      IsDown e e.conf.conf.install 0
        (kept (stop_virtual_machine env e w).0, (stop_virtual_machine env e w).1)
  unfolding stop_virtual_machine stop_waiting_for cleanup_virtual_machine
  stopped-IsDown = (cleaned_up env e b, refl, count-without (vm_output_and_timers e) w.event_list)

  after_stop-IsDown : IsDown e false 0 (after_stop (stop_virtual_machine env e w))
  unfolding stop_virtual_machine stop_waiting_for cleanup_virtual_machine after_stop
  after_stop-IsDown =
      (cleaned_up env e b, refl, count-without (vm_output_and_timers e) w.event_list)

  restarted-IsDown :
      (vm : VmEntry) (w' : World) (second : ℤ)
      → vm.addr ≡ e.addr
      → IsDown e e.conf.conf.install 0 (kept vm, w')
      → IsDown e e.conf.conf.install
          (if env.timer_event then 1 else 0)
          (kept vm, (set_timer env.timer_event vm second w').1)
  unfolding set_timer vm_output_and_timers
  restarted-IsDown vm w' second same h = ground arith

  exit_in_restart-IsDown :
      (used : List (Option Str)) (status : Status)
      → IsDown e e.conf.conf.install
          (if env.timer_event then 1 else 0)
          (exit_in State.restart env used status e w)
  unfolding exit_in stop_virtual_machine stop_waiting_for cleanup_virtual_machine
  exit_in_restart-IsDown used status =
      let (e', w') = stop_virtual_machine env e w in
      let down : VmEntry = record e' { vm = record e'.vm { state = State.terminate } } in
      restarted-IsDown down w' (max_ℤ down.conf.conf.boot_delay (pos 3)) refl
        (refl, refl, count-without (vm_output_and_timers e) w.event_list)

  exit_in_outcome :
      (used : List (Option Str)) (status : Status)
      → ((m : VmMethod) → find_method e.conf.pl_data e.conf.conf.backend ≡ some m → IsBackend m)
      → (st : State) → ExitOutcome env used status e w st (exit_in st env used status e w)
  unfolding exit_in stop_waiting_for
  exit_in_outcome used status backend State.stop = after_stop-IsDown
  exit_in_outcome used status backend State.remove = (refl, count-without (of_target e.addr) _)
  exit_in_outcome used status backend State.restart = exit_in_restart-IsDown used status
  exit_in_outcome used status backend State.run =
      test_cases (IsUpAgain w.next e.vm.state (start_virtual_machine env used e w))
        (IsDown e false 0) (reboots e.conf.conf status) _ _
        (started_again-IsUpAgain w.next e.vm.state _
          (start_virtual_machine-IsStarted env used e w backend))
        after_stop-IsDown
  exit_in_outcome used status backend State.load =
      let loaded = loaded_entry e in
      let w' = loaded_world e w in
      test_cases (IsUpAgain w.next e.vm.state (start_virtual_machine env used loaded w'))
        (IsDown e e.conf.conf.install 0) (exits_with_zero status) _ _
        (started_again-IsUpAgain w.next e.vm.state _
          (start_virtual_machine-IsStarted env used loaded w' backend))
        stopped-IsDown
  exit_in_outcome used status backend State.terminate = refl

-- Where each backend keeps its promise, the end of a machine's process has the outcome that the
-- machine's state calls for. STOP: it is down, no timer of it is left and no output is waited
-- for, and `install` is reset. RESTART: the same, but with one new timer, if the kernel takes it,
-- and `install` as before. REMOVE: it is freed, and no event refers to it. RUN where
-- the exit is a reboot: it is started again, and stays on the list as start_virtual_machine leaves
-- it, which ends the daemon's process, or leaves it terminated or watched, or returns -1 and leaves
-- its state. LOAD with exit code 0: the same once its input is forgotten and its output is no longer
-- waited for. LOAD with another status: it is down. RUN otherwise: it is down and `install` is
-- reset. TERMINATE: nothing happens.
pub on_vm_exit-ExitOutcome :
    (env : Env) (used : List (Option Str)) (status : Status) (e : VmEntry) (w : World)
    → IsBackend e.method
    → ((m : VmMethod) → find_method e.conf.pl_data e.conf.conf.backend ≡ some m → IsBackend m)
    → ExitOutcome env used status e w e.vm.state (on_vm_exit env used status e w)
unfolding on_vm_exit
on_vm_exit-ExitOutcome env used status e w b backend =
    exit_in_outcome env e w b used status backend e.vm.state
