-- ===== src/Prelude/Text.antt =====
-- C strings as the list of their bytes, less the final NUL, and the functions of string.h that the
-- program calls. The standard gives only the sign of a comparison: the model returns -1, 0 or 1.
use Prim.Native.Nat.{ℕ, zero, suc, ◌+◌, ◌/◌, ◌%◌}
use Prim.Native.Char.{code}
use Prim.Native.String.{String}
use mathlib.Core.Path.{◌≡◌, refl}
use mathlib.Core.Logic.{◌↔◌}
use mathlib.Core.Bool.{Bool, true, false, ◌&&◌}
use mathlib.Core.Option.{Option, none, some}
use mathlib.Core.List.{List, [], ◌∷◌, map}
use native.Mathlib.Omega.{arith}
use bmd.Prelude.Tests.{ltb, leb, ◌==◌, if◌then◌else◌}
use bmd.Prelude.Signed.{ℤ, pos, negsuc}

abbrev pub Str : Type 0
Str = List ℕ

-- A text literal. `String` has its own `[]` and `∷`.
abbrev pub codes : String → Str
codes String.[] = []
codes (String.◌∷◌ c s) = code c ∷ codes s

-- strcmp(s, t) == 0
unfoldable pub str_eq : Str → Str → Bool
str_eq [] [] = true
str_eq [] (b ∷ t) = false
str_eq (a ∷ s) [] = false
str_eq (a ∷ s) (b ∷ t) = (a == b) && str_eq s t

unfoldable pub strcmp : Str → Str → ℤ
strcmp [] [] = pos 0
strcmp [] (b ∷ t) = negsuc 0
strcmp (a ∷ s) [] = pos 1
strcmp (a ∷ s) (b ∷ t) =
    let rest = strcmp s t in if a == b then rest else if ltb a b then negsuc 0 else pos 1

unfoldable pub to_lower : ℕ → ℕ
to_lower c = if leb b'A' c && leb c b'Z' then c + 32 else c

unfoldable pub strcasecmp : Str → Str → ℤ
unfolding strcmp to_lower
strcasecmp s t = strcmp (map to_lower s) (map to_lower t)

-- strcasecmp(s, t) == 0
unfoldable pub case_eq : Str → Str → Bool
unfolding str_eq to_lower
case_eq s t = str_eq (map to_lower s) (map to_lower t)

-- The rest of `s` behind `p`, if strncmp(s, p, strlen(p)) == 0.
unfoldable pub strip_prefix : Str → Str → Option Str
strip_prefix [] s = some s
strip_prefix (a ∷ p) [] = none
strip_prefix (a ∷ p) (b ∷ s) = let rest = strip_prefix p s in if a == b then rest else none

-- strchr(s, c): what stands before and behind the first `c`.
unfoldable pub split_at : ℕ → Str → Option (Str × Str)
split_at c [] = none
split_at c (a ∷ s) =
    let rest : Option (Str × Str) = elim (split_at c s) [
      | none ↦ none
      | some (x, y) ↦ some (a ∷ x, y)
    ] in
    if a == c then some ([], s) else rest

pub str_eq_refl : (s : Str) → str_eq s s ≡ true
unfolding str_eq
str_eq_refl [] = refl
str_eq_refl (a ∷ s) = ground (arith, str_eq_refl s)

pub eq_of_str_eq : (s t : Str) → str_eq s t ≡ true → s ≡ t
unfolding str_eq
eq_of_str_eq [] [] h = refl
eq_of_str_eq [] (b ∷ t) h = cc
eq_of_str_eq (a ∷ s) [] h = cc
eq_of_str_eq (a ∷ s) (b ∷ t) h = ground (arith, eq_of_str_eq s t)

pub str_eq_of_eq : (s t : Str) → s ≡ t → str_eq s t ≡ true
str_eq_of_eq s t e = rw e (str_eq_refl t)

pub str_eq_iff : (s t : Str) → (str_eq s t ≡ true) ↔ (s ≡ t)
str_eq_iff s t = (eq_of_str_eq s t, str_eq_of_eq s t)

pub strcmp_self : (s : Str) → strcmp s s ≡ pos 0
unfolding strcmp
strcmp_self [] = refl
strcmp_self (a ∷ s) = ground (arith, strcmp_self s)

pub strcmp-eq_zero : (s t : Str) → strcmp s t ≡ pos 0 → s ≡ t
unfolding strcmp
strcmp-eq_zero [] [] h = refl
strcmp-eq_zero [] (b ∷ t) h = cc
strcmp-eq_zero (a ∷ s) [] h = ground arith
strcmp-eq_zero (a ∷ s) (b ∷ t) h = ground (arith, strcmp-eq_zero s t)

-- The decimal digits of a number, as `%u` prints them. Each round drops a digit, so `n + 1` rounds
-- are enough.
unfoldable pub show_loop : ℕ → ℕ → Str → Str
show_loop zero n acc = acc
show_loop (suc k) n acc =
    let rest = show_loop k (n / 10) ((48 + n % 10) ∷ acc) in
    if ltb n 10 then (48 + n) ∷ acc else rest

unfoldable pub show_nat : ℕ → Str
unfolding show_loop
show_nat n = show_loop (suc n) n []

-- As `%d` prints an integer.
unfoldable pub show_int : ℤ → Str
unfolding show_nat
show_int (pos n) = show_nat n
show_int (negsuc n) = b'-' ∷ show_nat (suc n)
