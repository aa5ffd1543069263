-- ===== src/Daemon/Reload/Cover.antt =====
-- What a write to one machine leaves of the machines that cover a configuration.
pub mod Round
pub mod Rounds
use bmd.Prelude.{
  ℕ, ◌+◌, ◌≤◌, ◌<◌, ◌≡◌, ◌≢◌, refl, sym, ap, ◌∙◌, ◌⊎◌, inl, inr, Bool, true, false, not, ◌&&◌, ◌==◌,
  ==_iff, Bool-cases, Option, none, some, List, [], ◌∷◌, Str, str_eq, str_eq_iff, All, arith, max_ℤ,
  ltb_ℤ, ℤ, pos, is_zero, if_both, if◌then◌else◌,
}
use mathlib.Core.Path.{subst}
use bmd.Conf.{Boot, VmConf}
use bmd.Vm.{State, VmMethod, Rc}
use bmd.Daemon.{VmConfEntry, VmEntry, World, Env, Daemon}
use bmd.Daemon.Comport.{used_ports}
use bmd.Daemon.Events.{set_timer, send}
use bmd.Daemon.Machine.{start_virtual_machine}
use bmd.Daemon.Machine.Fixed.{IsSame, start_virtual_machine-IsSame}
use bmd.Daemon.Machine.Grows.{set_timer_next, start_virtual_machine_next}
use bmd.Daemon.Reload.{
  is_no, reload_created, reload_found, next_conf, boot_new, power_off_to, reload_changed,
  reload_down, reload_up, reload_boot, reopen_log, reload_existing, reload_conf, reload_confs,
  reload_entry, reload_entry_to, cons_some, reload_entries, forget_new, finish_reload,
  reload_virtual_machines,
}
use bmd.Daemon.Entries.{
  new_vm, enter, compare_vm_conf_entry, lookup_vm_by_name, put_vm, create_vm_entry,
}
use bmd.Daemon.Reload.Target.{reload_existing_new}

abbrev pub addrs : List VmEntry → List ℕ
addrs [] = []
addrs (e ∷ es) = e.addr ∷ addrs es

abbrev pub AreDistinct : List ℕ → Type 0
AreDistinct [] = Unit
AreDistinct (a ∷ xs) = All (λ x. x ≢ a) xs × AreDistinct xs

-- No two machines have one address, and none has a free one.
abbrev pub IsWellFormed : Daemon → Type 0
IsWellFormed d = All (λ a. a < d.world.next) (addrs d.vm_list) × AreDistinct (addrs d.vm_list)

-- A machine of the configuration's name is to get the configuration.
abbrev IsFor : VmConfEntry → VmEntry → Type 0
IsFor c e = (e.new_conf ≡ some c) × (e.conf.conf.name ≡ c.conf.name)

abbrev IsCovered : VmConfEntry → List VmEntry → Type 0
IsCovered c [] = ⊥
IsCovered c (e ∷ es) = IsFor c e ⊎ IsCovered c es

addrs-put_vm : (e : VmEntry) (es : List VmEntry) → addrs (put_vm e es) ≡ addrs es
unfolding put_vm
addrs-put_vm e [] = refl
addrs-put_vm e (x ∷ xs) = elim (Bool-cases (x.addr == e.addr)) [
  | inl same ↦ rw same (ap (λ a. a ∷ addrs xs) (sym ((==_iff _ _).0 same)))
  | inr other ↦ rw other (ap (λ t. x.addr ∷ t) (addrs-put_vm e xs))
]

-- What the search finds is on the list.
found-All :
    (P : ℕ → Type 0) (es : List VmEntry) (name : Str) (e : VmEntry)
    → lookup_vm_by_name es name ≡ some e
    → All P (addrs es)
    → P e.addr
unfolding lookup_vm_by_name
found-All P [] name e h ps = cc
found-All P (x ∷ xs) name e h ps = elim (Bool-cases (str_eq x.conf.conf.name name)) [
  | inl hit ↦ let same : some x ≡ some e = cc (hit, h) in subst P (ap_addr x e same) ps.0
  | inr miss ↦ found-All P xs name e (cc (miss, h)) ps.1
]
  where
    ap_addr : (a b : VmEntry) → some a ≡ some b → a.addr ≡ b.addr
    ap_addr a b same = cc same

found_name :
    (es : List VmEntry) (name : Str) (e : VmEntry)
    → lookup_vm_by_name es name ≡ some e
    → e.conf.conf.name ≡ name
unfolding lookup_vm_by_name
found_name [] name e h = cc
found_name (x ∷ xs) name e h = elim (Bool-cases (str_eq x.conf.conf.name name)) [
  | inl hit ↦
      let same : some x ≡ some e = cc (hit, h) in
      let named : x.conf.conf.name ≡ name = (str_eq_iff _ _).0 hit in cc (same, named)
  | inr miss ↦ found_name xs name e (cc (miss, h))
]

-- The machine with the address of the one that is found is the one.
found_here :
    (x : VmEntry) (xs : List VmEntry) (name : Str) (e : VmEntry)
    → All (λ a. a ≢ x.addr) (addrs xs)
    → lookup_vm_by_name (x ∷ xs) name ≡ some e
    → x.addr ≡ e.addr
    → x.conf.conf.name ≡ name
unfolding lookup_vm_by_name
found_here x xs name e apart h same = elim (Bool-cases (str_eq x.conf.conf.name name)) [
  | inl hit ↦ (str_eq_iff _ _).0 hit
  | inr miss ↦ elim (found-All (λ a. a ≢ x.addr) xs name e (cc (miss, h)) apart (sym same)) [ ]
]

found_later :
    (x : VmEntry) (xs : List VmEntry) (name : Str) (e : VmEntry)
    → lookup_vm_by_name (x ∷ xs) name ≡ some e
    → (x.addr == e.addr) ≡ false
    → lookup_vm_by_name xs name ≡ some e
unfolding lookup_vm_by_name
found_later x xs name e h differ = elim (Bool-cases (str_eq x.conf.conf.name name)) [
  | inl hit ↦
      let same : some x ≡ some e = cc (hit, h) in
      let equal : (x.addr == e.addr) ≡ true = (==_iff _ _).1 (cc same) in cc (equal, differ)
  | inr miss ↦ cc (miss, h)
]

-- A write to the machine of another name leaves what covers a configuration.
put_vm-IsCovered :
    (c : VmConfEntry) (es : List VmEntry) (name : Str) (e e' : VmEntry)
    → AreDistinct (addrs es)
    → lookup_vm_by_name es name ≡ some e
    → e'.addr ≡ e.addr
    → name ≢ c.conf.name
    → IsCovered c es
    → IsCovered c (put_vm e' es)
unfolding put_vm
put_vm-IsCovered c [] name e e' distinct h place other covered = covered
put_vm-IsCovered c (x ∷ xs) name e e' (apart, distinct) h place other (inl g) =
    elim (Bool-cases (x.addr == e'.addr)) [
      | inl same ↦
          elim (other
            (sym (found_here x xs name e apart h ((==_iff _ _).0 same ∙ place)) ∙ g.1)) [ ]
      | inr differ ↦ rw differ (inl g)
    ]
put_vm-IsCovered c (x ∷ xs) name e e' (apart, distinct) h place other (inr g) =
    elim (Bool-cases (x.addr == e'.addr)) [
      | inl same ↦ rw same (inr g)
      | inr differ ↦ rw differ (
          inr (
            put_vm-IsCovered c xs name e e' distinct
              (found_later x xs name e h (cc (differ, place))) place other g))
    ]

-- The machine that is written covers its configuration.
put_vm-IsFor :
    (c : VmConfEntry) (es : List VmEntry) (name : Str) (e e' : VmEntry)
    → lookup_vm_by_name es name ≡ some e
    → e'.addr ≡ e.addr
    → IsFor c e'
    → IsCovered c (put_vm e' es)
unfolding put_vm
put_vm-IsFor c [] name e e' h place g = absurd_search name e h
  where
    absurd_search : (n : Str) (m : VmEntry) → lookup_vm_by_name [] n ≡ some m → IsCovered c []
    absurd_search n m k = unfold lookup_vm_by_name in cc k
put_vm-IsFor c (x ∷ xs) name e e' h place g = elim (Bool-cases (x.addr == e'.addr)) [
  | inl same ↦ rw same (inl g)
  | inr differ ↦
      rw differ
        (inr (put_vm-IsFor c xs name e e' (found_later x xs name e h (cc (differ, place))) place g))
]

All-below : (xs : List ℕ) (m n : ℕ) → m ≤ n → All (λ a. a < m) xs → All (λ a. a < n) xs
All-below [] m n h below = tt
All-below (x ∷ xs) m n h (b, below) = (omega (arith, b, h), All-below xs m n h below)
