-- ===== src/Daemon/Events.antt =====
-- The event list of bmd.c.
pub mod Timers
use bmd.Prelude.{
  ℕ, suc, ◌+◌, ℤ, Bool, true, false, ◌&&◌, ◌||◌, not, Option, none, some, List, [], ◌∷◌, ◌++◌, ◌==◌,
  if◌then◌else◌,
}
use bmd.Vm.{Vm, Signal}
use bmd.Daemon.{
  Filter, read_filter, proc_filter, timer_filter, Callback, Event, VmEntry, World, on_timer,
  on_vm_exit, on_read_vm_output,
}

abbrev pub same_ptr : Option ℕ → Option ℕ → Bool
same_ptr none none = true
same_ptr (some a) (some b) = a == b
same_ptr _ _ = false

abbrev pub is_fd : Option ℕ → ℕ → Bool
is_fd none fd = false
is_fd (some a) fd = a == fd

abbrev pub is_read : Filter → Bool
is_read read_filter = true
is_read _ = false

abbrev pub is_timer : Filter → Bool
is_timer timer_filter = true
is_timer _ = false

-- The predicates that stop_waiting_for is given.
unfoldable pub vm_output : VmEntry → Event → Bool
vm_output e ev =
    same_ptr ev.target (some e.addr)
    && is_read ev.filter
    && (is_fd e.vm.outfd ev.ident || is_fd e.vm.errfd ev.ident)

unfoldable pub vm_output_and_timers : VmEntry → Event → Bool
vm_output_and_timers e ev =
    same_ptr ev.target (some e.addr)
    && (is_timer ev.filter
        || (is_read ev.filter && (is_fd e.vm.outfd ev.ident || is_fd e.vm.errfd ev.ident)))

-- `sock_buf` and `vm_entry`
unfoldable pub of_target : ℕ → Event → Bool
of_target addr ev = same_ptr ev.target (some addr)

-- The events that are left.
unfoldable pub without : (Event → Bool) → List Event → List Event
without fn [] = []
without fn (ev ∷ evs) = let rest = without fn evs in if fn ev then rest else ev ∷ rest

unfoldable pub stop_waiting_for : (Event → Bool) → World → World
unfolding without
stop_waiting_for fn w = record w { event_list = without fn w.event_list }

-- `taken` says whether the kernel took the event; if not, nothing is registered.
unfoldable pub register_event :
    Bool → Filter → ℕ → Bool → Callback → Option ℕ → World → Bool × World
register_event taken filter ident oneshot cb target w =
    let ev : Event = record {
      key = w.next;
      filter = filter;
      ident = ident;
      oneshot = oneshot;
      cb = cb;
      target = target;
    } in
    if taken
    then (true, record w { event_list = ev ∷ w.event_list; next = w.next + 1 })
    else (false, w)

-- The delay goes to the kernel alone.
unfoldable pub set_timer : Bool → VmEntry → ℤ → World → Bool × World
unfolding register_event
set_timer taken e second w =
    register_event taken timer_filter (w.timer_id + 1) true on_timer (some e.addr)
      (record w { timer_id = w.timer_id + 1 })

unfoldable pub pid_ident : Option ℕ → ℕ
pid_ident none = 0
pid_ident (some pid) = pid

unfoldable pub wait_for_vm : Bool → VmEntry → World → Bool × World
unfolding register_event pid_ident
wait_for_vm taken e w =
    register_event taken proc_filter (pid_ident e.vm.pid) true on_vm_exit (some e.addr) w

register_output : VmEntry → Option ℕ → World → World
unfolding register_event
register_output e none w = w
register_output e (some fd) w =
    (register_event true read_filter fd false on_read_vm_output (some e.addr) w).1

-- Both events or none.
unfoldable pub wait_for_vm_output : Bool → VmEntry → World → Bool × World
unfolding register_output
wait_for_vm_output taken e w =
    if taken
    then (true, register_output e e.vm.errfd (register_output e e.vm.outfd w))
    else (false, w)

unfoldable pub send : Signal → World → World
send s w = record w { sent = s ∷ w.sent }
