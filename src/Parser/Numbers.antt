-- ===== src/Parser/Numbers.antt =====
-- strtol(3), as the parser calls it, and parse_int.
use bmd.Prelude.{
  ℕ, zero, ◌+◌, ◌-◌, ◌*◌, ◌^◌, ℤ, pos, neg_ℤ, Bool, true, false, ◌&&◌, ◌||◌, ◌==◌, leb, ltb, Option,
  none, some, [], ◌∷◌, Str, if◌then◌else◌,
}
use bmd.Conf.Compare.{to_int}

is_space : ℕ → Bool
is_space c = c == 32 || (leb 9 c && leb c 13)

skip_spaces : Str → Str
unfolding is_space
skip_spaces [] = []
skip_spaces (c ∷ s) = let rest = skip_spaces s in if is_space c then rest else c ∷ s

-- The value of a digit; what is no digit has a value that no base reaches.
digit : ℕ → ℕ
digit c =
    if leb b'0' c && leb c b'9'
    then c - 48
    else if leb b'a' c && leb c b'z'
    then c - 87
    else if leb b'A' c && leb c b'Z'
    then c - 55
    else 36

digits : ℕ → ℕ → Str → ℕ × Str
unfolding digit
digits base v [] = (v, [])
digits base v (c ∷ s) =
    let more = digits base (v * base + digit c) s in if ltb (digit c) base then more else (v, c ∷ s)

-- The base 0 is told by the prefix.
choose_base : ℕ → Str → ℕ × Str
unfolding digit
choose_base zero (c ∷ x ∷ d ∷ s) =
    if c == b'0' && (x == b'x' || x == b'X') && ltb (digit d) 16
    then (16, d ∷ s)
    else if c == b'0'
    then (8, c ∷ x ∷ d ∷ s)
    else (10, c ∷ x ∷ d ∷ s)
choose_base zero (c ∷ s) = if c == b'0' then (8, c ∷ s) else (10, c ∷ s)
choose_base zero [] = (10, [])
choose_base base s = (base, s)

-- A value that a `long` does not hold becomes the nearest that it holds.
saturate : Bool → ℕ → ℤ
saturate true v = neg_ℤ (pos (if ltb (2 ^ 63) v then 2 ^ 63 else v))
saturate false v = pos (if ltb v (2 ^ 63) then v else 2 ^ 63 - 1)

-- Where no digit is found the value is 0 and the end is the text itself.
number_from : Bool → Str → ℕ × Str → ℤ × Str
unfolding digits digit saturate
number_from minus text (base, []) = (pos 0, text)
number_from minus text (base, c ∷ s) =
    let (v, rest) = digits base 0 (c ∷ s) in
    if ltb (digit c) base then (saturate minus v, rest) else (pos 0, text)

signed_from : ℕ → Str → Str → ℤ × Str
unfolding choose_base number_from
signed_from base text [] = (pos 0, text)
signed_from base text (c ∷ s) =
    if c == b'-'
    then number_from true text (choose_base base s)
    else if c == b'+'
    then number_from false text (choose_base base s)
    else number_from false text (choose_base base (c ∷ s))

-- The number, and the text that `endptr` then points to.
unfoldable pub strtol : ℕ → Str → ℤ × Str
unfolding skip_spaces signed_from
strtol base text = signed_from base text (skip_spaces text)

abbrev pub is_end : Str → Bool
is_end [] = true
is_end (c ∷ s) = false

-- The `long` is stored in an `int`.
unfoldable pub parse_int : Str → Option ℤ
unfolding strtol to_int
parse_int value = let (n, p) = strtol 10 value in if is_end p then some (to_int n) else none
