-- ===== src/Daemon/Reload/Cover/Round.antt =====
-- One round of the loop of a reload over the configurations: what is covered stays covered.
use bmd.Prelude.{
  ℕ, ◌+◌, ◌≤◌, ◌<◌, ◌≡◌, ◌≢◌, refl, sym, ap, ◌∙◌, ◌⊎◌, inl, inr, true, ◌==◌, ==_iff, Option, none,
  some, List, [], ◌∷◌, All, arith, ltb_ℤ, pos, if_both,
}
use mathlib.Core.Path.{subst}
use bmd.Vm.{VmMethod}
use bmd.Daemon.{VmConfEntry, VmEntry, World, Env, Daemon}
use bmd.Daemon.Comport.{used_ports}
use bmd.Daemon.Machine.{start_virtual_machine}
use bmd.Daemon.Machine.Fixed.{start_virtual_machine-IsSame}
use bmd.Daemon.Machine.Grows.{set_timer_next, start_virtual_machine_next}
use bmd.Daemon.Reload.{is_no, reload_created, reload_found, boot_new, reload_existing}
use bmd.Daemon.Entries.{new_vm, enter, lookup_vm_by_name, put_vm, create_vm_entry}
use bmd.Daemon.Reload.Target.{reload_existing_new}
use bmd.Daemon.Reload.Cover.{
  addrs, IsWellFormed, IsFor, IsCovered, addrs-put_vm, found_name, put_vm-IsCovered, put_vm-IsFor,
  All-below,
}
use bmd.Daemon.Reload.Updated.{reload_existing-IsUpdated}

-- What one round of the first loop keeps, for a configuration `k` of another name or the one of the
-- round.
abbrev pub IsRound : VmConfEntry → Daemon → Type 0
IsRound k d = IsWellFormed d × IsCovered k d.vm_list

WellFormed-put :
    (d : Daemon) (e : VmEntry) (w : World)
    → IsWellFormed d
    → d.world.next ≤ w.next
    → IsWellFormed (record d { vm_list = put_vm e d.vm_list; world = w })
WellFormed-put d e w (below, distinct) grows =
    rw (addrs-put_vm e d.vm_list)
      (All-below (addrs d.vm_list) d.world.next w.next grows below, distinct)

put_head : (e e' : VmEntry) (es : List VmEntry) → e.addr ≡ e'.addr → put_vm e' (e ∷ es) ≡ e' ∷ es
unfolding put_vm
put_head e e' es same =
    let equal : (e.addr == e'.addr) ≡ true = (==_iff _ _).1 same in rw equal refl

IsCovered-same :
    (k : VmConfEntry) (e e' : VmEntry) (es : List VmEntry)
    → e'.conf ≡ e.conf
    → e'.new_conf ≡ e.new_conf
    → IsCovered k (e ∷ es)
    → IsCovered k (e' ∷ es)
IsCovered-same k e e' es same new (inl g) =
    inl (new ∙ g.0, ap (λ (c : VmConfEntry). c.conf.name) same ∙ g.1)
IsCovered-same k e e' es same new (inr g) = inr g

boot_new-IsRound :
    (k : VmConfEntry) (env : Env) (e : VmEntry) (es : List VmEntry) (d : Daemon)
    → IsRound k (record d { vm_list = e ∷ es })
    → IsRound k (boot_new env e (record d { vm_list = e ∷ es }))
unfolding boot_new
boot_new-IsRound k env e es d (wf, covered) =
    let list : Daemon = record d { vm_list = e ∷ es } in
    let r = start_virtual_machine env (used_ports (e ∷ es)) e d.world in
    let same = start_virtual_machine-IsSame env (used_ports (e ∷ es)) e d.world in
    let now : IsRound k (record d { vm_list = put_vm r.1 (e ∷ es); world = r.2 }) = (
      WellFormed-put list r.1 r.2 wf
          (start_virtual_machine_next env (used_ports (e ∷ es)) e d.world),
      subst (IsCovered k) (sym (put_head e r.1 es (sym same.0)))
          (IsCovered-same k e r.1 es same.1 same.2 covered),
    ) in
    if_both (IsRound k) (is_no e.conf.conf.boot) _ _ (wf, covered)
      (if_both (IsRound k) (ltb_ℤ (pos 0) e.conf.conf.boot_delay) _ _
        (
          (
            All-below (addrs (e ∷ es)) _ _
                (set_timer_next env.timer_event e e.conf.conf.boot_delay d.world) wf.0,
            wf.1,
          ),
          covered,
        )
        now)

abbrev pub IsRoundStep : VmConfEntry → Option Daemon → Type 0
IsRoundStep k none = Unit
IsRoundStep k (some d) = IsRound k d

-- A configuration that is covered before the round of `c`, or is the one of the round.
abbrev IsKept : VmConfEntry → VmConfEntry → Daemon → Type 0
IsKept c k d = (k ≡ c) ⊎ ((c.conf.name ≢ k.conf.name) × IsCovered k d.vm_list)

All-other : (xs : List ℕ) (n : ℕ) → All (λ a. a < n) xs → All (λ a. a ≢ n) xs
All-other [] n below = tt
All-other (x ∷ xs) n (b, below) = ((λ h. ground (arith, b, h)), All-other xs n below)

reload_created-IsRoundStep :
    (k : VmConfEntry) (env : Env) (c : VmConfEntry) (d : Daemon) (m : Option VmMethod)
    → IsWellFormed d
    → IsKept c k d
    → IsRoundStep k (reload_created env c (enter c d m))
unfolding reload_created enter
reload_created-IsRoundStep k env c d none wf kept = tt
reload_created-IsRoundStep k env c d (some m) (below, distinct) kept =
    let e : VmEntry = record {
      addr = d.world.next;
      vm = new_vm;
      conf = c;
      new_conf = none;
      method = m;
    } in
    let e' : VmEntry = record e { new_conf = some c } in
    let d' : Daemon = record d { world = record d.world { next = d.world.next + 1 } } in
    let covered : IsCovered k (e' ∷ d.vm_list) = elim kept [
      | inl h ↦ inl (ap some (sym h), ap (λ (x : VmConfEntry). x.conf.name) (sym h))
      | inr g ↦ inr g.1
    ] in
    let wf : IsWellFormed (record d' { vm_list = e' ∷ d.vm_list }) = (
      (
        omega arith,
        All-below (addrs d.vm_list) d.world.next (d.world.next + 1) (omega arith) below,
      ),
      (All-other (addrs d.vm_list) d.world.next below, distinct),
    ) in
    rw (put_head e e' d.vm_list refl) (boot_new-IsRound k env e' d.vm_list d' (wf, covered))

pub reload_found-IsRoundStep :
    (k : VmConfEntry) (env : Env) (c : VmConfEntry) (d : Daemon) (found : Option VmEntry)
    → lookup_vm_by_name d.vm_list c.conf.name ≡ found
    → IsWellFormed d
    → IsKept c k d
    → IsRoundStep k (reload_found env c d found)
unfolding reload_found create_vm_entry
reload_found-IsRoundStep k env c d none h wf kept = reload_created-IsRoundStep k env c d _ wf kept
reload_found-IsRoundStep k env c d (some e) h wf kept =
    let used = used_ports d.vm_list in
    let updated =
      reload_existing-IsUpdated env used c e d.world (found_name d.vm_list c.conf.name e h) in
    let for_c : IsFor c (reload_existing env used c e d.world).0 =
      (reload_existing_new env used c e d.world, updated.1) in
    let w' = (reload_existing env used c e d.world).1 in
    (
      WellFormed-put d _ w' wf updated.2,
      elim kept [
        | inl same ↦
            subst (λ x. IsCovered x (put_vm (reload_existing env used c e d.world).0 d.vm_list))
              (sym same) (put_vm-IsFor c d.vm_list c.conf.name e _ h updated.0 for_c)
        | inr g ↦ put_vm-IsCovered k d.vm_list c.conf.name e _ wf.1 h updated.0 g.0 g.1
      ],
    )
