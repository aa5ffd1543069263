-- ===== src/Daemon/Comport/ReadBack.antt =====
-- The number of a null modem device that is read back from its path.
use bmd.Prelude.{
  ◌*ℤ◌, ◌*◌, ◌≤◌, ◌∙◌, Bool-cases, inl, inr, ltb, ℕ, zero, suc, ◌+◌, ◌/◌, ◌%◌, ◌<◌, ◌≡◌, refl, ap,
  ℤ, pos, negsuc, ◌+ℤ◌, ◌-ℤ◌, ◌≤ℤ◌, true, some, [], ◌∷◌, ◌++◌, Str, codes, show_nat, show_int,
  show_loop, arith, if◌then◌else◌,
}
use bmd.Conf.Compare.{to_int}
use bmd.Daemon.Comport.{is_number, read_digits, get_nmdm_number, device_path}

-- The greatest `int`.
abbrev pub int_max : ℤ
int_max = pos 2147483647

pub to_int_small : (a : ℤ) → negsuc 2147483647 ≤ℤ a → a ≤ℤ int_max → to_int a ≡ a
unfolding to_int
to_int_small a h k = ground arith

-- A digit that is read.
stored_digit :
    (q d : ℕ)
    → q * 10 + d ≤ 2147483647
    → to_int (pos q *ℤ pos 10 +ℤ pos (48 + d) -ℤ pos 48) ≡ pos (q * 10 + d)
unfolding ◌+ℤ◌ ◌-ℤ◌ ◌*ℤ◌
stored_digit q d h =
    let exact : pos q *ℤ pos 10 +ℤ pos (48 + d) -ℤ pos 48 ≡ pos (q * 10 + d) = ground arith in
    rw exact (to_int_small _ (ground arith) (ground arith))

read_digit :
    (q d : ℕ) (s : Str)
    → d < 10
    → q * 10 + d ≤ 2147483647
    → read_digits (pos q) ((48 + d) ∷ s) ≡ read_digits (pos (q * 10 + d)) s
unfolding read_digits ◌+ℤ◌ ◌-ℤ◌ ◌*ℤ◌
read_digit q d s h k =
    let digit : is_number (48 + d) ≡ true = unfold is_number in ground arith in
    rw (digit, stored_digit q d k) refl

show_step :
    (f n : ℕ) (acc : Str)
    → show_loop (suc f) n acc
      ≡ (if ltb n 10 then (48 + n) ∷ acc else show_loop f (n / 10) ((48 + n % 10) ∷ acc))
unfolding show_loop
show_step f n acc = refl

-- Reading back what was printed.
read_show_loop :
    (fuel n : ℕ) (acc : Str)
    → n < fuel
    → n ≤ 2147483647
    → read_digits (pos 0) (show_loop fuel n acc) ≡ read_digits (pos n) acc
read_show_loop zero n acc h k = ground (arith, h)
read_show_loop (suc f) n acc h k = elim (Bool-cases (ltb n 10)) [
  | inl small ↦
      rw (show_step f n acc, small)
        (read_digit 0 n acc (ground (arith, small)) (omega (arith, k))
          ∙ ap (λ m. read_digits (pos m) acc) (omega arith))
  | inr large ↦
      rw (show_step f n acc, large)
        (read_show_loop f (n / 10) ((48 + n % 10) ∷ acc) (ground (arith, large)) (omega arith)
          ∙ read_digit (n / 10) (n % 10) acc (omega arith) (omega arith)
          ∙ ap (λ m. read_digits (pos m) acc) (omega arith))
]

show_loop-append : (fuel n : ℕ) (s t : Str) → show_loop fuel n s ++ t ≡ show_loop fuel n (s ++ t)
unfolding show_loop
show_loop-append zero n s t = refl
show_loop-append (suc k) n s t = ground (arith, show_loop-append k (n / 10) ((48 + n % 10) ∷ s) t)

pub get_nmdm_number-device_path :
    (n : ℤ) → pos 0 ≤ℤ n → n ≤ℤ int_max → get_nmdm_number (some (device_path n)) ≡ n
unfolding get_nmdm_number device_path read_digits show_int show_nat
get_nmdm_number-device_path (pos k) h small =
    rw
      (
        show_loop-append (suc k) k [] (codes "B"),
        read_show_loop (suc k) k (codes "B") (omega arith) (ground arith),
      )
      refl
get_nmdm_number-device_path (negsuc k) h small = ground arith
