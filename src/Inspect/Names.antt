-- ===== src/Inspect/Names.antt =====
-- The names that inspect.c looks for.
pub mod Version
use bmd.Prelude.{
  ℕ, ◌==◌, leb, Bool, true, false, not, ◌&&◌, ◌||◌, Option, none, some, List, [], ◌∷◌, ◌++◌, Str,
  strip_prefix, is_some, if◌then◌else◌,
}

unfoldable pub is_digit : ℕ → Bool
is_digit c = leb b'0' c && leb c b'9'

unfoldable pub all_digits : Str → Bool
unfolding is_digit
all_digits [] = true
all_digits (c ∷ s) = is_digit c && all_digits s

-- A first loop over the digits, and what stands behind them.
unfoldable pub skip_digits : Str → Str
unfolding is_digit
skip_digits [] = []
skip_digits (c ∷ s) = let rest = skip_digits s in if is_digit c then rest else c ∷ s

pub is_fraction : Str → Bool
unfolding all_digits
is_fraction [] = false
is_fraction (c ∷ s) = all_digits (c ∷ s)

pub after_digits : Str → Bool
unfolding is_fraction
after_digits [] = false
after_digits (c ∷ s) = c == b'.' && is_fraction s

starts_with_digit : Str → Bool
unfolding is_digit
starts_with_digit [] = false
starts_with_digit (c ∷ s) = is_digit c

-- [0-9]+\.[0-9]+
unfoldable pub match_version_number : Str → Bool
unfolding skip_digits after_digits starts_with_digit
match_version_number name = starts_with_digit name && after_digits (skip_digits name)

pub is_part : Option Str → Bool
unfolding all_digits
is_part none = false
is_part (some []) = false
is_part (some (c ∷ s)) = (c == b'p' || c == b's') && all_digits s

-- The disk's name, `p` or `s`, and digits, of which there may be none.
unfoldable pub match_diskname : Str → Str → Bool
unfolding is_part strip_prefix
match_diskname name diskname = is_part (strip_prefix diskname name)

-- What stands before and behind the last byte `c`; `none` if it does not occur.
unfoldable pub split_last : ℕ → Str → Option (Str × Str)
split_last c [] = none
split_last c (a ∷ s) = elim (split_last c s) [
  | some (x, y) ↦ some (a ∷ x, y)
  | none ↦ if a == c then some ([], s) else none
]

-- The digits at the end, and the byte before them with what stands before it.
unfoldable pub last_number : Str → Option (Str × ℕ × Str)
unfolding all_digits is_digit
last_number [] = none
last_number (a ∷ s) = elim (last_number s) [
  | some (x, c, y) ↦ some (a ∷ x, c, y)
  | none ↦ if is_digit a then none else some ([], a, s)
]
