-- ===== src/Daemon/Machine/Grows.antt =====
-- Addresses are not given twice: a start leaves the next free address or raises it.
use bmd.Prelude.{◌≤◌, Bool, true, false, Option, none, some, List, Str, ℤ, arith}
use bmd.Vm.{Vm, Rc, ok, err, dies}
use bmd.Daemon.{VmEntry, World, Env}
use bmd.Daemon.Comport.{assign_comport}
use bmd.Daemon.Events.{set_timer, wait_for_vm, wait_for_vm_output, send}
use bmd.Daemon.Machine.{
  set_vm_method, loader_timer, watch, launched, prepared, bring_up, with_method, if_method,
  start_virtual_machine,
}

module _ (taken : Bool) (e : VmEntry) where
  pub set_timer_next : (second : ℤ) (w : World) → w.next ≤ (set_timer taken e second w).1.next
  unfolding set_timer
  set_timer_next second w = ground arith

  wait_for_vm_next : (w : World) → w.next ≤ (wait_for_vm taken e w).1.next
  unfolding wait_for_vm
  wait_for_vm_next w = ground arith

  wait_for_vm_output_next : (w : World) → w.next ≤ (wait_for_vm_output taken e w).1.next
  unfolding wait_for_vm_output
  wait_for_vm_output_next w = ground arith

loader_timer_next : (env : Env) (e : VmEntry) (w : World) → w.next ≤ (loader_timer env e w).1.next
unfolding loader_timer
loader_timer_next env e w =
    ground (arith, set_timer_next env.timer_event e e.conf.conf.loader_timeout w)

watch_next : (env : Env) (e : VmEntry) (w : World) → w.next ≤ (watch env e w).2.next
unfolding watch send
watch_next env e w =
    let w1 = (wait_for_vm env.proc_event e w).1 in
    let w2 = (wait_for_vm_output env.output_event e w1).1 in
    ground (
      arith,
      wait_for_vm_next env.proc_event e w,
      wait_for_vm_output_next env.output_event e w1,
      loader_timer_next env e w2,
    )

launched_next :
    (env : Env) (e : VmEntry) (w : World) (r : Rc × Vm) → w.next ≤ (launched env e w r).2.next
unfolding launched
launched_next env e w (ok, vm) = watch_next env (record e { vm = vm }) w
launched_next env e w (err, vm) = omega arith
launched_next env e w (dies, vm) = omega arith

prepared_next : (env : Env) (w : World) (x : Bool × VmEntry) → w.next ≤ (prepared env w x).2.next
unfolding prepared
prepared_next env w (true, e) = launched_next env e w (e.method.vm_start env.spawn e.conf.conf e.vm)
prepared_next env w (false, e) = omega arith

if_method_next :
    (env : Env) (used : List (Option Str)) (e : VmEntry) (w : World) (given : Option VmEntry)
    → w.next ≤ (if_method env used e w given).2.next
unfolding if_method with_method
if_method_next env used e w none = omega arith
if_method_next env used e w (some e') =
    let vm' = (assign_comport env w.nmdm_offset used e'.conf.conf e'.vm).1 in
    ground (arith, prepared_next env w (bring_up env (record e' { vm = vm' })))

pub start_virtual_machine_next :
    (env : Env) (used : List (Option Str)) (e : VmEntry) (w : World)
    → w.next ≤ (start_virtual_machine env used e w).2.next
unfolding start_virtual_machine
start_virtual_machine_next env used e w = if_method_next env used e w (set_vm_method e)
