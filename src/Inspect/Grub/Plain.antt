-- ===== src/Inspect/Grub/Plain.antt =====
-- What strip_csi leaves of a text with control sequences.
use bmd.Prelude.{
  ℕ, zero, suc, ◌≤◌, ◌≡◌, ◌≢◌, refl, ap, ◌∙◌, Bool, true, false, leb, ◌&&◌, Bool-cases, inl, inr,
  List, [], ◌∷◌, ◌++◌, Str, length, All, arith,
}
use bmd.Inspect.Names.{is_digit}
use bmd.Inspect.Grub.Csi.{
  has_byte, csi_letters, is_param, skip_params, Piece, sequence_end, after_escape, piece,
  strip_loop, strip_csi,
}

-- A byte that is shown, or a control sequence: its parameters and its letter.
pub data Item : Type 0 where
  shown : ℕ → Item
  sequence : Str → ℕ → Item

abbrev pub write_items : List Item → Str
write_items [] = []
write_items (shown c ∷ is) = c ∷ write_items is
write_items (sequence ps l ∷ is) = 27 ∷ b'[' ∷ (ps ++ l ∷ write_items is)

abbrev pub shown_bytes : List Item → Str
shown_bytes [] = []
shown_bytes (shown c ∷ is) = c ∷ shown_bytes is
shown_bytes (sequence ps l ∷ is) = shown_bytes is

-- A byte other than the escape, or a sequence with one of the letters of the source.
abbrev pub IsItem : Item → Type 0
IsItem (shown c) = c ≢ 27
IsItem (sequence ps l) = All (λ c. is_param c ≡ true) ps × (has_byte l csi_letters ≡ true)

abbrev at_least : ℕ → Str → Bool
at_least n [] = true
at_least n (d ∷ s) = leb n d && at_least n s

has_byte-least : (n c : ℕ) (s : Str) → at_least n s ≡ true → has_byte c s ≡ true → n ≤ c
unfolding has_byte
has_byte-least n c [] h e = cc
has_byte-least n c (d ∷ s) h e = elim (Bool-cases (has_byte c s)) [
  | inl t ↦ has_byte-least n c s (ground arith) t
  | inr f ↦ ground arith
]

letter-no_param : (l : ℕ) → has_byte l csi_letters ≡ true → is_param l ≡ false
unfolding is_param is_digit
letter-no_param l h = let least : 65 ≤ l = has_byte-least 65 l csi_letters refl h in ground arith

skip-params :
    (ps : Str) (l : ℕ) (s : Str)
    → All (λ c. is_param c ≡ true) ps
    → is_param l ≡ false
    → skip_params (ps ++ l ∷ s) ≡ l ∷ s
unfolding skip_params
skip-params [] l s h e = rw e refl
skip-params (c ∷ ps) l s h e = rw h.0 (skip-params ps l s h.1 e)

piece_sequence :
    (ps : Str) (l : ℕ) (s : Str)
    → IsItem (sequence ps l)
    → piece 27 (b'[' ∷ (ps ++ l ∷ s)) ≡ Piece.dropped s
unfolding piece after_escape
piece_sequence ps l s h =
    ap sequence_end (skip-params ps l s h.0 (letter-no_param l h.1))
    ∙ unfold sequence_end in rw h.1 refl

length-tail : (ps : Str) (l : ℕ) (s : Str) → length s ≤ length (ps ++ l ∷ s)
length-tail [] l s = omega arith
length-tail (c ∷ ps) l s = let n = length-tail ps l s in omega (arith, n)

nothing_left : (n : ℕ) → suc n ≤ 0 → ⊥
nothing_left n h = omega arith

strip_items :
    (k : ℕ) (is : List Item)
    → All IsItem is
    → length (write_items is) ≤ k
    → strip_loop k (write_items is) ≡ shown_bytes is
unfolding strip_loop
strip_items zero [] h n = refl
strip_items (suc k) [] h n = refl
strip_items zero (shown c ∷ is) h n = elim (nothing_left (length (write_items is)) n) [ ]
strip_items zero (sequence ps l ∷ is) h n =
    elim (nothing_left (length (b'[' ∷ (ps ++ l ∷ write_items is))) n) [ ]
strip_items (suc k) (shown c ∷ is) h n =
    let plain : piece c (write_items is) ≡ Piece.copied = unfold piece in ground (arith, h.0) in
    rw (plain, strip_loop) (ap (λ t. c ∷ t) (strip_items k is h.1 (omega arith)))
strip_items (suc k) (sequence ps l ∷ is) h n =
    let shorter = length-tail ps l (write_items is) in
    rw (piece_sequence ps l (write_items is) h.0, strip_loop)
      (strip_items k is h.1 (omega (arith, shorter)))

-- strip_csi takes complete control sequences that end in one of the source's letters out of a text
-- without other escapes and leaves the other bytes as they are.
pub strip_csi-write_items :
    (is : List Item) → All IsItem is → strip_csi (write_items is) ≡ shown_bytes is
unfolding strip_csi
strip_csi-write_items is h = strip_items (length (write_items is)) is h (omega arith)
