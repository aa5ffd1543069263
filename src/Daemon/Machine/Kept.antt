-- ===== src/Daemon/Machine/Kept.antt =====
-- Which events the handler of a machine's exit leaves on the list.
use bmd.Prelude.{
  ℕ, ◌≡◌, refl, Bool, true, false, not, ◌&&◌, ◌==◌, Option, none, some, List, [], ◌∷◌, Str, arith,
}
use bmd.Vm.{State, Rc}
use bmd.Daemon.{Event, Filter, VmEntry, World, Env}
use bmd.Daemon.Events.{
  vm_output, vm_output_and_timers, of_target, without, stop_waiting_for, same_ptr,
}
use bmd.Daemon.Events.Timers.{any, any-without, any-without-false, set_timer-any}
use bmd.Daemon.Machine.{
  stop_virtual_machine, started_again, after_stop, exit_in, on_vm_exit, Status, Fate,
}
use bmd.Daemon.Machine.Watched.{start_virtual_machine-any}

abbrev is_proc : Filter → Bool
is_proc Filter.proc_filter = true
is_proc _ = false

-- The event with this address, which waits for a process.
abbrev pub is_proc_event : ℕ → Event → Bool
is_proc_event k ev = ev.key == k && is_proc ev.filter

-- An event with this address, and one of them for another object.
abbrev pub has_key : ℕ → Event → Bool
has_key k ev = ev.key == k

abbrev pub is_other : ℕ → Option ℕ → Event → Bool
is_other k target ev = ev.key == k && not (same_ptr ev.target target)

none_left :
    (k a : ℕ) (evs : List Event)
    → any (is_other k (some a)) evs ≡ false
    → any (has_key k) (without (of_target a) evs) ≡ false
unfolding without of_target
none_left k a [] h = refl
none_left k a (ev ∷ evs) h = ground (arith, none_left k a evs)

vm_output_proc :
    (k : ℕ) (e : VmEntry) (ev : Event) → is_proc_event k ev ≡ true → vm_output e ev ≡ false
unfolding vm_output
vm_output_proc k e ev h = ground arith

vm_output_and_timers_proc :
    (k : ℕ) (e : VmEntry) (ev : Event)
    → is_proc_event k ev ≡ true
    → vm_output_and_timers e ev ≡ false
unfolding vm_output_and_timers
vm_output_and_timers_proc k e ev h = ground arith

abbrev pub is_remove : State → Bool
is_remove State.remove = true
is_remove _ = false

abbrev events : Fate × World → List Event
events (x, w) = w.event_list

events-started_again : (r : Rc × VmEntry × World) → events (started_again r) ≡ r.2.event_list
unfolding started_again
events-started_again r = refl

module _ (k : ℕ) (env : Env) (used : List (Option Str)) (status : Status) (e : VmEntry)
    (w : World) where
  stopped-any :
      any (is_proc_event k) w.event_list ≡ true
      → any (is_proc_event k) (stop_virtual_machine env e w).1.event_list ≡ true
  unfolding stop_virtual_machine stop_waiting_for
  stopped-any h =
      any-without (is_proc_event k) (vm_output_and_timers e) w.event_list
        (vm_output_and_timers_proc k e) h

  exit_in-any :
      (st : State)
      → is_remove st ≡ false
      → any (is_proc_event k) w.event_list ≡ true
      → any (is_proc_event k) (events (exit_in st env used status e w)) ≡ true
  unfolding exit_in started_again after_stop stop_waiting_for
  exit_in-any State.terminate r h = h
  exit_in-any State.load r h =
      let loaded : VmEntry = record e { vm = record e.vm { infd = none } } in
      let left =
        any-without (is_proc_event k) (vm_output loaded) w.event_list (vm_output_proc k loaded) h in
      ground (
        arith,
        stopped-any h,
        start_virtual_machine-any (is_proc_event k) env used loaded
            (stop_waiting_for (vm_output loaded) w) left,
      )
  exit_in-any State.run r h =
      ground (arith, stopped-any h, start_virtual_machine-any (is_proc_event k) env used e w h)
  exit_in-any State.stop r h = stopped-any h
  exit_in-any State.restart r h =
      set_timer-any (is_proc_event k) env.timer_event _ _ _ (stopped-any h)
  exit_in-any State.remove r h = cc

  exit_in_freed :
      (st : State)
      → is_remove st ≡ true
      → any (is_other k (some e.addr)) w.event_list ≡ false
      → (any (has_key k) (events (exit_in st env used status e w)) ≡ false)
        × ((exit_in st env used status e w).1.dead ≡ w.dead)
  unfolding exit_in stop_virtual_machine stop_waiting_for
  exit_in_freed State.remove r h = (
    none_left k e.addr _
        (any-without-false (is_other k (some e.addr)) (vm_output_and_timers e) w.event_list h),
    refl,
  )
  exit_in_freed _ r h = cc

  -- In a state other than REMOVE the event itself stays.
  pub on_vm_exit-any :
      is_remove e.vm.state ≡ false
      → any (is_proc_event k) w.event_list ≡ true
      → any (is_proc_event k) (on_vm_exit env used status e w).1.event_list ≡ true
  unfolding on_vm_exit
  on_vm_exit-any = exit_in-any e.vm.state

  -- In the state REMOVE it goes with the machine, whose process it waits for.
  pub on_vm_exit_freed :
      is_remove e.vm.state ≡ true
      → any (is_other k (some e.addr)) w.event_list ≡ false
      → (any (has_key k) (on_vm_exit env used status e w).1.event_list ≡ false)
        × ((on_vm_exit env used status e w).1.dead ≡ w.dead)
  unfolding on_vm_exit
  on_vm_exit_freed = exit_in_freed e.vm.state
