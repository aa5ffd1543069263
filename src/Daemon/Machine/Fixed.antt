-- ===== src/Daemon/Machine/Fixed.antt =====
-- What a start leaves of an entry: its address and its configurations.
use bmd.Prelude.{◌≡◌, refl, ◌∙◌, Bool, true, false, Option, none, some, List, Str, arith}
use bmd.Vm.{Vm, VmMethod, Rc, ok, err, dies}
use bmd.Daemon.{VmEntry, World, Env}
use bmd.Daemon.Comport.{assign_comport}
use bmd.Daemon.Machine.{
  set_vm_method, give_method, find_method, cleanup_virtual_machine, open_log, watch, launched,
  prepared, bring_up, with_method, if_method, start_virtual_machine,
}

-- The same machine with the same configurations.
abbrev pub IsSame : VmEntry → VmEntry → Type 0
IsSame e e' = (e'.addr ≡ e.addr) × (e'.conf ≡ e.conf) × (e'.new_conf ≡ e.new_conf)

watch-IsSame : (env : Env) (e : VmEntry) (w : World) → IsSame e (watch env e w).1
unfolding watch open_log cleanup_virtual_machine
watch-IsSame env e w = ground arith

launched-IsSame :
    (env : Env) (e : VmEntry) (w : World) (r : Rc × Vm) → IsSame e (launched env e w r).1
unfolding launched cleanup_virtual_machine
launched-IsSame env e w (ok, vm) = watch-IsSame env (record e { vm = vm }) w
launched-IsSame env e w (err, vm) = (refl, refl, refl)
launched-IsSame env e w (dies, vm) = (refl, refl, refl)

prepared-IsSame : (env : Env) (w : World) (x : Bool × VmEntry) → IsSame x.1 (prepared env w x).1
unfolding prepared
prepared-IsSame env w (true, e) =
    launched-IsSame env e w (e.method.vm_start env.spawn e.conf.conf e.vm)
prepared-IsSame env w (false, e) = (refl, refl, refl)

bring_up-IsSame : (env : Env) (e : VmEntry) → IsSame e (bring_up env e).1
unfolding bring_up
bring_up-IsSame env e = ground arith

IsSame-trans : (a b c : VmEntry) → IsSame a b → IsSame b c → IsSame a c
IsSame-trans a b c h k = (k.0 ∙ h.0, k.1 ∙ h.1, k.2 ∙ h.2)

with_method-IsSame :
    (env : Env) (used : List (Option Str)) (w : World) (e : VmEntry)
    → IsSame e (with_method env used w e).1
unfolding with_method
with_method-IsSame env used w e =
    let vm' = (assign_comport env w.nmdm_offset used e.conf.conf e.vm).1 in
    let e' : VmEntry = record e { vm = vm' } in
    ground
      (arith, IsSame-trans e _ _ (bring_up-IsSame env e') (prepared-IsSame env w (bring_up env e')))

if_method-IsSame :
    (env : Env) (used : List (Option Str)) (e : VmEntry) (w : World) (found : Option VmMethod)
    → IsSame e (if_method env used e w (give_method e found)).1
unfolding if_method give_method
if_method-IsSame env used e w none = (refl, refl, refl)
if_method-IsSame env used e w (some m) = with_method-IsSame env used w (record e { method = m })

pub start_virtual_machine-IsSame :
    (env : Env) (used : List (Option Str)) (e : VmEntry) (w : World)
    → IsSame e (start_virtual_machine env used e w).1
unfolding start_virtual_machine set_vm_method
start_virtual_machine-IsSame env used e w =
    if_method-IsSame env used e w (find_method e.conf.pl_data e.conf.conf.backend)
