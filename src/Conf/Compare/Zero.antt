-- ===== src/Conf/Compare/Zero.antt =====
-- When the comparisons of conf.c give 0.
use bmd.Prelude.{
  ◌-◌, ◌<◌, ◌≤◌, ◌^◌, ℤ, pos, negsuc, pos_part, neg_part, is_zero, zero_of_is_zero, Bool, Option,
  none, some, List, [], ◌∷◌, map, Str, strcmp-eq_zero, strcmp_self, ◌≡◌, refl, arith, All, ap,
  Bool-cases, inl, inr,
}
use bmd.Conf.{Boot, HostbridgeType}
use bmd.Conf.Compare.{
  cmp_num, bool_int, boot_int, hostbridge_int, compare_string, first_nonzero, compare_queue,
}

-- The range of an `int`, and of the owner and group, which stand for unsigned 32-bit ids or -1.
abbrev pub IsInt : ℤ → Type 0
IsInt a = (pos_part a < 2 ^ 31) × (neg_part a ≤ 2 ^ 31)

abbrev pub IsId : ℤ → Type 0
IsId a = (pos_part a < 2 ^ 32 - 1) × (neg_part a ≤ 1)

pub cmp_num_self : (a : ℤ) → cmp_num a a ≡ pos 0
unfolding cmp_num
cmp_num_self (pos n) = ground arith
cmp_num_self (negsuc n) = ground arith

pub cmp_num-eq_zero : (a b : ℤ) → IsInt a → IsInt b → cmp_num a b ≡ pos 0 → a ≡ b
unfolding cmp_num
cmp_num-eq_zero a b ha hb h = ground arith

pub cmp_num-eq_zero_id : (a b : ℤ) → IsId a → IsId b → cmp_num a b ≡ pos 0 → a ≡ b
unfolding cmp_num
cmp_num-eq_zero_id a b ha hb h = ground arith

pub cmp_bool-eq_zero : (a b : Bool) → cmp_num (bool_int a) (bool_int b) ≡ pos 0 → a ≡ b
unfolding cmp_num
cmp_bool-eq_zero a b h = ground arith

pub cmp_boot-eq_zero : (a b : Boot) → cmp_num (boot_int a) (boot_int b) ≡ pos 0 → a ≡ b
unfolding cmp_num
cmp_boot-eq_zero a b h = ground arith

pub cmp_hostbridge-eq_zero :
    (a b : HostbridgeType) → cmp_num (hostbridge_int a) (hostbridge_int b) ≡ pos 0 → a ≡ b
unfolding cmp_num
cmp_hostbridge-eq_zero a b h = ground arith

pub compare_string_self : (a : Option Str) → compare_string a a ≡ pos 0
unfolding compare_string
compare_string_self none = refl
compare_string_self (some a) = strcmp_self a

pub compare_string-eq_zero : (a b : Option Str) → compare_string a b ≡ pos 0 → a ≡ b
unfolding compare_string
compare_string-eq_zero none none h = refl
compare_string-eq_zero none (some b) h = cc
compare_string-eq_zero (some a) none h = ground arith
compare_string-eq_zero (some a) (some b) h = ap some (strcmp-eq_zero a b h)

-- A chain of comparisons gives 0 exactly when each does.
pub first_nonzero-All : (rcs : List ℤ) → first_nonzero rcs ≡ pos 0 → All (λ rc. rc ≡ pos 0) rcs
unfolding first_nonzero
first_nonzero-All [] h = tt
first_nonzero-All (rc ∷ rcs) h = elim (Bool-cases (is_zero rc)) [
  | inl z ↦ (zero_of_is_zero rc z, first_nonzero-All rcs (rw z at h))
  | inr nz ↦ ground arith
]

pub All-first_nonzero : (rcs : List ℤ) → All (λ rc. rc ≡ pos 0) rcs → first_nonzero rcs ≡ pos 0
unfolding first_nonzero
All-first_nonzero [] h = refl
All-first_nonzero (rc ∷ rcs) h = rw h.0 (All-first_nonzero rcs h.1)

module _ {ℓ} {A : Type ℓ} (cmp : A → A → ℤ) where
  pub compare_queue_self :
      ((x : A) → cmp x x ≡ pos 0) → (xs : List A) → compare_queue cmp xs xs ≡ pos 0
  unfolding compare_queue
  compare_queue_self same [] = refl
  compare_queue_self same (x ∷ xs) = rw (same x) (compare_queue_self same xs)

  pub compare_queue-eq :
      ((x y : A) → cmp x y ≡ pos 0 → x ≡ y)
      → (xs ys : List A) → compare_queue cmp xs ys ≡ pos 0
      → xs ≡ ys
  unfolding compare_queue
  compare_queue-eq same [] [] h = refl
  compare_queue-eq same [] (y ∷ ys) h = cc
  compare_queue-eq same (x ∷ xs) [] h = ground arith
  compare_queue-eq same (x ∷ xs) (y ∷ ys) h = elim (Bool-cases (is_zero (cmp x y))) [
    | inl z ↦ cc (same x y (zero_of_is_zero (cmp x y) z), compare_queue-eq same xs ys (rw z at h))
    | inr nz ↦ ground arith
  ]

  -- Two queues compare equal only if what `key` shows of their elements is the same in order.
  pub compare_queue-eq_zero {κ} :
      {B : Type κ} (key : A → B)
      → ((x y : A) → cmp x y ≡ pos 0 → key x ≡ key y)
      → (xs ys : List A) → compare_queue cmp xs ys ≡ pos 0
      → map key xs ≡ map key ys
  unfolding compare_queue
  compare_queue-eq_zero key same [] [] h = refl
  compare_queue-eq_zero key same [] (y ∷ ys) h = cc
  compare_queue-eq_zero key same (x ∷ xs) [] h = ground arith
  compare_queue-eq_zero key same (x ∷ xs) (y ∷ ys) h = elim (Bool-cases (is_zero (cmp x y))) [
    | inl z ↦
        cc
          (same x y (zero_of_is_zero (cmp x y) z), compare_queue-eq_zero key same xs ys (rw z at h))
    | inr nz ↦ ground arith
  ]

  -- The key of a queue determines its comparison with itself.
  pub compare_queue-zero_of_key {κ} :
      {B : Type κ} (key : A → B)
      → ((x y : A) → key x ≡ key y → cmp x y ≡ pos 0)
      → (xs ys : List A) → map key xs ≡ map key ys
      → compare_queue cmp xs ys ≡ pos 0
  unfolding compare_queue
  compare_queue-zero_of_key key same [] [] h = refl
  compare_queue-zero_of_key key same [] (y ∷ ys) h = cc
  compare_queue-zero_of_key key same (x ∷ xs) [] h = cc
  compare_queue-zero_of_key key same (x ∷ xs) (y ∷ ys) h =
      rw (same x y (cc)) (compare_queue-zero_of_key key same xs ys (cc))
