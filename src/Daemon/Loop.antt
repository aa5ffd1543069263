-- ===== src/Daemon/Loop.antt =====
-- One round of the event loop of bmd.c, and the shutdown of all machines.
pub mod Fault
use bmd.Prelude.{
  ℕ, zero, suc, ◌+◌, ◌-◌, ℤ, Bool, true, false, not, ◌&&◌, ◌==◌, Option, none, some, List, [], ◌∷◌,
  Str, if◌then◌else◌,
}
use bmd.Vm.{State, Signal}
use bmd.Daemon.{
  VmConfEntry, VmEntry, Event, Callback, on_timer, on_vm_exit, on_sigterm, on_sighup, World, Env,
  Daemon,
}
use bmd.Daemon.Comport.{used_ports}
use bmd.Daemon.Events.{send, set_timer}
use bmd.Daemon.Machine
use bmd.Daemon.Machine.{Status, Fate, kept, freed}
use bmd.Daemon.Reload.{reload_virtual_machines}
use bmd.Daemon.Entries.{put_vm}

-- What an event delivers: the answers of the system for each machine, the child's status, and the
-- configuration that a reload reads.
pub record Delivery : Type 0 where
  pub env : Str → Env
  pub status : Status
  pub loaded : Option (List VmConfEntry)

-- A pointer to an entry that is not on the list dangles.
unfoldable pub find_vm : List VmEntry → Option ℕ → Option VmEntry
find_vm es none = none
find_vm [] (some a) = none
find_vm (e ∷ es) (some a) = let rest = find_vm es (some a) in if e.addr == a then some e else rest

unfoldable pub remove_vm : ℕ → List VmEntry → List VmEntry
remove_vm a [] = []
remove_vm a (e ∷ es) = let rest = remove_vm a es in if e.addr == a then es else e ∷ rest

settle : Daemon → VmEntry → Fate × World → Daemon
unfolding remove_vm put_vm
settle d e (kept e', w) = record d { vm_list = put_vm e' d.vm_list; world = w }
settle d e (freed, w) = record d { vm_list = remove_vm e.addr d.vm_list; world = w }

-- The outcome of a step: a memory fault is the use of an entry or of an event that has been freed.
pub data Step : Type 0 where
  done : Daemon → Step
  fault : Step

at_vm : Option VmEntry → (VmEntry → Daemon) → Step
at_vm none f = fault
at_vm (some e) f = done (f e)

-- The callbacks, with the event's `data`. Those of command sockets, of output and of plugins leave
-- the lists of machines and of events, as they are modelled here.
pub called : Callback → Delivery → Option ℕ → Daemon → Step
unfolding find_vm at_vm settle
called Callback.on_timer x target d = at_vm (find_vm d.vm_list target) (λ e.
    let (e', w) = Machine.on_timer (x.env e.conf.conf.name) (used_ports d.vm_list) e d.world in
    record d { vm_list = put_vm e' d.vm_list; world = w })
called Callback.on_vm_exit x target d = at_vm (find_vm d.vm_list target) (λ e.
    settle d e
      (Machine.on_vm_exit (x.env e.conf.conf.name) (used_ports d.vm_list) x.status e d.world))
called Callback.on_sigterm x target d = done (record d { sigterm = d.sigterm + 1 })
called Callback.on_sighup x target d = done (reload_virtual_machines x.env x.loaded d).1
called _ x target d = done d

unfoldable pub call_back : Delivery → Event → Daemon → Step
unfolding called
call_back x ev d = called ev.cb x ev.target d

unfoldable pub on_list : ℕ → List Event → Bool
on_list k [] = false
on_list k (ev ∷ evs) = let rest = on_list k evs in if ev.key == k then true else rest

unfoldable pub remove_event : ℕ → List Event → List Event
remove_event k [] = []
remove_event k (ev ∷ evs) = let rest = remove_event k evs in if ev.key == k then evs else ev ∷ rest

-- `LIST_REMOVE(event, next); free(event)`: a fault if the event has been freed.
unfoldable pub drop_event : Event → Step → Step
unfolding on_list remove_event
drop_event ev fault = fault
drop_event ev (done d) =
    let w = record d.world { event_list = remove_event ev.key d.world.event_list } in
    if d.world.dead
    then done d
    else if on_list ev.key d.world.event_list
    then done (record d { world = w })
    else fault

-- The body of event_loop for an event that kevent(2) returned: `do_remove` is read before the
-- callback runs, and the event is removed after it.
unfoldable pub dispatch : Delivery → Event → Daemon → Step
unfolding call_back drop_event
dispatch x ev d = let step = call_back x ev d in if ev.oneshot then drop_event ev step else step

-- The first loop of stop_virtual_machines: how many processes it waits for, and what it asks of
-- them. The state of a machine is left as it is.
unfoldable pub stop_virtual_machines : (Str → Env) → List VmEntry → World → ℕ × World
unfolding send set_timer
stop_virtual_machines env [] w = (0, w)
stop_virtual_machines env (e ∷ es) w =
    let w' = send (e.method.vm_acpi_poweroff e.conf.conf e.vm) w in
    let asked = (set_timer (env e.conf.conf.name).timer_event e e.conf.conf.stop_timeout w').1 in
    let running = stop_virtual_machines env es asked in
    let idle = stop_virtual_machines env es w in
    elim e.vm.state [
      | State.load ↦ let (n, w2) = running in (n + 1, w2)
      | State.run ↦ let (n, w2) = running in (n + 1, w2)
      | _ ↦ idle
    ]
