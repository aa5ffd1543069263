-- ===== src/Daemon/Loop/Fault.antt =====
-- When the event loop uses an event that its callback has freed.
use bmd.Prelude.{ℕ, ◌≡◌, refl, Bool, true, false, not, ◌&&◌, Option, some, List, [], ◌∷◌, arith}
use bmd.Daemon.{Event, Callback, VmEntry, World, Daemon}
use bmd.Daemon.Comport.{used_ports}
use bmd.Daemon.Events.Timers.{any}
use bmd.Daemon.Machine.{on_vm_exit, Fate, kept, freed}
use bmd.Daemon.Machine.Kept.{
  is_proc_event, is_other, has_key, is_remove, on_vm_exit-any, on_vm_exit_freed,
}
use bmd.Daemon.Loop.{
  Delivery, Step, done, fault, find_vm, call_back, called, at_vm, settle, on_list, drop_event,
  dispatch,
}

abbrev pub is_fault : Step → Bool
is_fault fault = true
is_fault (done d) = false

on_list-any : (k : ℕ) (evs : List Event) → on_list k evs ≡ any (has_key k) evs
unfolding on_list
on_list-any k [] = refl
on_list-any k (ev ∷ evs) = ground (arith, on_list-any k evs)

has_key-proc :
    (k : ℕ) (evs : List Event) → any (is_proc_event k) evs ≡ true → any (has_key k) evs ≡ true
has_key-proc k [] h = h
has_key-proc k (ev ∷ evs) h = ground (arith, has_key-proc k evs)

-- The world that a handler leaves.
settle_world : (d : Daemon) (e : VmEntry) (r : Fate × World) → (settle d e r).world ≡ r.1
unfolding settle
settle_world d e (kept e', w) = refl
settle_world d e (freed, w) = refl

drop_event_fault :
    (ev : Event) (d : Daemon)
    → is_fault (drop_event ev (done d))
      ≡ (not d.world.dead && not (any (has_key ev.key) d.world.event_list))
unfolding drop_event
drop_event_fault ev d = ground (arith, on_list-any ev.key d.world.event_list)

-- The fault after the handler, as the handler's world decides it.
called_exit :
    (x : Delivery) (cb : Callback) (target : Option ℕ) (ev : Event) (d : Daemon) (e : VmEntry)
    → cb ≡ Callback.on_vm_exit
    → find_vm d.vm_list target ≡ some e
    → (let w = (on_vm_exit (x.env e.conf.conf.name) (used_ports d.vm_list) x.status e d.world).1 in
        is_fault (drop_event ev (called cb x target d))
        ≡ (not w.dead && not (any (has_key ev.key) w.event_list)))
unfolding called at_vm
called_exit x cb target ev d e is found =
    let r = on_vm_exit (x.env e.conf.conf.name) (used_ports d.vm_list) x.status e d.world in
    rw (is, found, drop_event_fault ev (settle d e r), settle_world d e r) refl

-- Where a one-shot event of a process calls on_vm_exit for a machine on the list, stands on the
-- list of events under an address that no event of another object has, and the daemon's process
-- has not ended, the event loop uses a freed event if the machine is in the state REMOVE, and in no
-- other state.
pub dispatch_fault :
    (x : Delivery) (ev : Event) (d : Daemon) (e : VmEntry)
    → ev.cb ≡ Callback.on_vm_exit
    → ev.oneshot ≡ true
    → find_vm d.vm_list ev.target ≡ some e
    → any (is_proc_event ev.key) d.world.event_list ≡ true
    → any (is_other ev.key (some e.addr)) d.world.event_list ≡ false
    → d.world.dead ≡ false
    → is_fault (dispatch x ev d) ≡ is_remove e.vm.state
unfolding dispatch call_back
dispatch_fault x ev d e cb oneshot found here alone alive =
    let env = x.env e.conf.conf.name in
    let used = used_ports d.vm_list in
    let w = (on_vm_exit env used x.status e d.world).1 in
    ground (
      arith,
      called_exit x ev.cb ev.target ev d e cb found,
      on_vm_exit-any ev.key env used x.status e d.world,
      on_vm_exit_freed ev.key env used x.status e d.world,
      has_key-proc ev.key w.event_list,
    )
