-- ===== src/Daemon/Machine/Start.antt =====
-- No machine runs unwatched: after a start the machine is down, or the exit of its process is
-- awaited by an event.
use bmd.Prelude.{
  ℕ, ◌≡◌, refl, sym, ◌∙◌, ◌⊎◌, inl, inr, Bool, true, false, ℤ, Option, none, some, List, Str, arith,
  if◌then◌else◌,
}
use mathlib.Core.Path.{subst}
use bmd.Conf.{VmConf}
use bmd.Vm.{State, Vm, VmMethod, Rc, ok, err, dies}
use bmd.Vm.Taps.{TapEnv, remove_taps, assign_taps}
use bmd.Daemon.{VmEntry, World, Env}
use bmd.Daemon.Comport.{assign_comport}
use bmd.Daemon.Machine.{
  find_method, set_vm_method, launched, prepared, bring_up, with_method, give_method, if_method,
  start_virtual_machine,
}
use bmd.Daemon.Machine.Watched.{IsBackend, IsWatched, cleaned_up, watch-IsWatched}

-- A start ends the daemon's process, or leaves the machine down or watched, or fails and leaves its state.
abbrev pub IsStarted : ℕ → State → Rc × VmEntry × World → Type 0
IsStarted lo st (rc, e, w) = (w.dead ≡ true) ⊎ (IsWatched lo e w ⊎ ((rc ≡ err) × (e.vm.state ≡ st)))

launched-IsStarted :
    (env : Env) (e : VmEntry) (w : World) (r : Rc × Vm)
    → IsBackend e.method
    → IsStarted w.next e.vm.state (launched env e w r)
unfolding launched
launched-IsStarted env e w (ok, vm) b = inr (inl (watch-IsWatched env (record e { vm = vm }) w b))
launched-IsStarted env e w (err, vm) b = inr (inl (inl (cleaned_up env (record e { vm = vm }) b)))
launched-IsStarted env e w (dies, vm) b = inl refl

prepared-IsStarted :
    (env : Env) (w : World) (x : Bool × VmEntry)
    → IsBackend x.1.method
    → IsStarted w.next x.1.vm.state (prepared env w x)
unfolding prepared
prepared-IsStarted env w (false, e) b = inr (inr (refl, refl))
prepared-IsStarted env w (true, e) b =
    launched-IsStarted env e w (e.method.vm_start env.spawn e.conf.conf e.vm) b

remove_taps_state : (socket : Bool) (vm : Vm) → (remove_taps socket vm).1.state ≡ vm.state
unfolding remove_taps
remove_taps_state socket vm = ground arith

assign_taps_state :
    (env : TapEnv) (conf : VmConf) (vm : Vm) → (assign_taps env conf vm).1.state ≡ vm.state
unfolding assign_taps
assign_taps_state env conf vm = ground arith

bring_up_method : (env : Env) (e : VmEntry) → (bring_up env e).1.method ≡ e.method
unfolding bring_up
bring_up_method env e = ground arith

bring_up_state : (env : Env) (e : VmEntry) → (bring_up env e).1.vm.state ≡ e.vm.state
unfolding bring_up
bring_up_state env e =
    let (up, vm') = assign_taps env.taps e.conf.conf e.vm in
    ground (arith, assign_taps_state env.taps e.conf.conf e.vm, remove_taps_state env.remove vm')

assign_comport_state :
    (env : Env) (offset : ℤ) (used : List (Option Str)) (conf : VmConf) (vm : Vm)
    → (assign_comport env offset used conf vm).1.state ≡ vm.state
unfolding assign_comport
assign_comport_state env offset used conf vm = ground arith

if-IsStarted :
    (lo : ℕ) (st : State) (test : Bool) (x y : Rc × VmEntry × World)
    → IsStarted lo st x
    → IsStarted lo st y
    → IsStarted lo st (if test then x else y)
if-IsStarted lo st true x y hx hy = hx
if-IsStarted lo st false x y hx hy = hy

with_method-IsStarted :
    (env : Env) (used : List (Option Str)) (w : World) (e : VmEntry)
    → IsBackend e.method
    → IsStarted w.next e.vm.state (with_method env used w e)
unfolding with_method
with_method-IsStarted env used w e b =
    let (assigned, vm') = assign_comport env w.nmdm_offset used e.conf.conf e.vm in
    let e' : VmEntry = record e { vm = vm' } in
    let same : vm'.state ≡ e.vm.state =
      assign_comport_state env w.nmdm_offset used e.conf.conf e.vm in
    let up : IsStarted w.next e.vm.state (prepared env w (bring_up env e')) =
      subst (λ s. IsStarted w.next s (prepared env w (bring_up env e')))
        (bring_up_state env e' ∙ same)
        (prepared-IsStarted env w (bring_up env e')
          (subst IsBackend (sym (bring_up_method env e')) b)) in
    if-IsStarted w.next e.vm.state assigned (prepared env w (bring_up env e')) (err, e', w) up
      (inr (inr (refl, same)))

given-IsStarted :
    (env : Env) (used : List (Option Str)) (e : VmEntry) (w : World) (found : Option VmMethod)
    → ((m : VmMethod) → found ≡ some m → IsBackend m)
    → IsStarted w.next e.vm.state (if_method env used e w (give_method e found))
unfolding if_method give_method
given-IsStarted env used e w none backend = inr (inr (refl, refl))
given-IsStarted env used e w (some m) backend =
    with_method-IsStarted env used w (record e { method = m }) (backend m refl)

-- Where each backend keeps its promise, a start ends the daemon's process, or leaves the machine terminated
-- or with a one-shot event, registered by this start, that calls on_vm_exit when the machine's
-- process ends, or fails and leaves the state of the machine as it was.
pub start_virtual_machine-IsStarted :
    (env : Env) (used : List (Option Str)) (e : VmEntry) (w : World)
    → ((m : VmMethod) → find_method e.conf.pl_data e.conf.conf.backend ≡ some m → IsBackend m)
    → IsStarted w.next e.vm.state (start_virtual_machine env used e w)
unfolding start_virtual_machine set_vm_method
start_virtual_machine-IsStarted env used e w backend =
    given-IsStarted env used e w (find_method e.conf.pl_data e.conf.conf.backend) backend
