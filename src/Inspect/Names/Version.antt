-- ===== src/Inspect/Names/Version.antt =====
-- The texts that are version numbers.
use bmd.Prelude.{
  ◌==◌, ==_iff, ◌≡◌, ◌↔◌, refl, ap, ◌∙◌, Bool, true, Bool-cases, inl, inr, ◌&&◌, [], ◌∷◌, ◌++◌, Str,
  All, arith,
}
use bmd.Inspect.Names.{
  is_digit, all_digits, skip_digits, is_fraction, after_digits, starts_with_digit,
  match_version_number,
}

-- A number: digits, of which there is at least one.
abbrev pub IsNumber : Str → Type 0
IsNumber [] = ⊥
IsNumber (c ∷ s) = All (λ d. is_digit d ≡ true) (c ∷ s)

all_digits-All : (s : Str) → all_digits s ≡ true → All (λ d. is_digit d ≡ true) s
unfolding all_digits
all_digits-All [] h = tt
all_digits-All (c ∷ s) h = elim (Bool-cases (is_digit c)) [
  | inl e ↦ (e, all_digits-All s (rw e at h))
  | inr e ↦ cc (e, h)
]

All-all_digits : (s : Str) → All (λ d. is_digit d ≡ true) s → all_digits s ≡ true
unfolding all_digits
All-all_digits [] h = refl
All-all_digits (c ∷ s) h = rw h.0 (All-all_digits s h.1)

skip_digits-append :
    (a s : Str) → All (λ d. is_digit d ≡ true) a → skip_digits (a ++ b'.' ∷ s) ≡ b'.' ∷ s
unfolding skip_digits
skip_digits-append [] s h = unfold is_digit in refl
skip_digits-append (c ∷ a) s h = rw h.0 (skip_digits-append a s h.1)

-- The digits that skip_digits passes over.
skipped : (s : Str) → (a : Str) × (s ≡ a ++ skip_digits s) × All (λ d. is_digit d ≡ true) a
unfolding skip_digits
skipped [] = ([], refl, tt)
skipped (c ∷ s) = elim (Bool-cases (is_digit c)) [
  | inl e ↦ let (a, eq, h) = skipped s in rw e (c ∷ a, ap (λ t. c ∷ t) eq, (e, h))
  | inr e ↦ rw e ([], refl, tt)
]

fraction-IsNumber : (s : Str) → is_fraction s ≡ true → IsNumber s
unfolding is_fraction
fraction-IsNumber [] h = cc
fraction-IsNumber (c ∷ s) h = all_digits-All (c ∷ s) h

IsNumber-fraction : (s : Str) → IsNumber s → is_fraction s ≡ true
unfolding is_fraction
IsNumber-fraction [] h = elim h [ ]
IsNumber-fraction (c ∷ s) h = All-all_digits (c ∷ s) h

after_digits_lem : (r : Str) → after_digits r ≡ true → (b : Str) × (r ≡ b'.' ∷ b) × IsNumber b
unfolding after_digits
after_digits_lem [] h = cc
after_digits_lem (c ∷ s) h = elim (Bool-cases (c == b'.')) [
  | inl e ↦ (s, ap (λ t. t ∷ s) ((==_iff c b'.').0 e), fraction-IsNumber s (rw e at h))
  | inr e ↦ cc (e, h)
]

starts_with_digit-IsNumber :
    (a b s : Str)
    → s ≡ a ++ b'.' ∷ b
    → starts_with_digit s ≡ true
    → All (λ d. is_digit d ≡ true) a
    → IsNumber a
unfolding starts_with_digit is_digit
starts_with_digit-IsNumber [] b s e h k = cc h
starts_with_digit-IsNumber (c ∷ a) b s e h k = k

starts-append : (a s : Str) → IsNumber a → starts_with_digit (a ++ s) ≡ true
unfolding starts_with_digit
starts-append [] s h = elim h [ ]
starts-append (c ∷ a) s h = h.0

digits_of : (a : Str) → IsNumber a → All (λ d. is_digit d ≡ true) a
digits_of [] h = tt
digits_of (c ∷ a) h = h

and_parts : (p q : Bool) → (p && q) ≡ true → (p ≡ true) × (q ≡ true)
and_parts p q h = ground arith

-- match_version_number accepts exactly the texts that are a number, a dot and a number.
pub match_version_number_iff :
    (s : Str)
    → (match_version_number s ≡ true)
      ↔ ((a : Str) × (b : Str) × IsNumber a × IsNumber b × (s ≡ a ++ b'.' ∷ b))
unfolding match_version_number
match_version_number_iff s = (
  λ h.
      let (first, after) = and_parts (starts_with_digit s) (after_digits (skip_digits s)) h in
      let (a, eq, digits) = skipped s in
      let (b, dot, number) = after_digits_lem (skip_digits s) after in
      let whole : s ≡ a ++ b'.' ∷ b = eq ∙ ap (λ t. a ++ t) dot in
      (a, b, starts_with_digit-IsNumber a b s whole first digits, number, whole),
  λ parts.
      let (a, b, na, nb, whole) = parts in
      let skip : skip_digits s ≡ b'.' ∷ b =
        ap skip_digits whole ∙ skip_digits-append a b (digits_of a na) in
      let first : starts_with_digit s ≡ true =
        ap starts_with_digit whole ∙ starts-append a (b'.' ∷ b) na in
      rw first (rw skip (unfold after_digits in IsNumber-fraction b nb)),
)
