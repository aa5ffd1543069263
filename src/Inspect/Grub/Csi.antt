-- ===== src/Inspect/Grub/Csi.antt =====
-- strip_csi and strip_newline of inspect_grub.c, which take the control sequences of a terminal and
-- the ends of lines out of what grub writes.
use bmd.Prelude.{ℕ, zero, suc, ◌==◌, ◌||◌, Bool, false, [], ◌∷◌, Str, codes, length, if◌then◌else◌}
use bmd.Inspect.Names.{is_digit}

-- The letters at which a control sequence ends.
unfoldable pub has_byte : ℕ → Str → Bool
has_byte c [] = false
has_byte c (d ∷ s) = c == d || has_byte c s

abbrev pub csi_letters : Str
csi_letters = codes "ABCDEFGHIJKMSTfhilmnsu"

unfoldable pub is_param : ℕ → Bool
unfolding is_digit
is_param c = is_digit c || c == b';'

-- The rest from the first byte that is no parameter.
unfoldable pub skip_params : Str → Str
unfolding is_param
skip_params [] = []
skip_params (c ∷ s) = let rest = skip_params s in if is_param c then rest else c ∷ s

-- What stands at the place of the loop: a byte to copy; a sequence, with what follows it; or a
-- sequence that the buffer breaks off.
pub data Piece : Type 0 where
  copied : Piece
  dropped : Str → Piece
  broken : Piece

unfoldable pub sequence_end : Str → Piece
unfolding has_byte
sequence_end [] = broken
sequence_end (c ∷ s) = if has_byte c csi_letters then dropped s else copied

unfoldable pub after_escape : Str → Piece
unfolding sequence_end skip_params
after_escape [] = copied
after_escape (c ∷ s) = if c == b'[' then sequence_end (skip_params s) else copied

unfoldable pub piece : ℕ → Str → Piece
unfolding after_escape
piece c s = if c == 27 then after_escape s else copied

-- The loop. Each round takes a byte at least, so that the length is enough fuel.
unfoldable pub strip_loop : ℕ → Str → Str
unfolding piece
strip_loop zero s = []
strip_loop (suc k) [] = []
strip_loop (suc k) (c ∷ s) = elim (piece c s) [
  | copied ↦ c ∷ strip_loop k s
  | dropped r ↦ strip_loop k r
  | broken ↦ []
]

unfoldable pub strip_csi : Str → Str
unfolding strip_loop
strip_csi s = strip_loop (length s) s

unfoldable pub strip_newline : Str → Str
strip_newline [] = []
strip_newline (c ∷ s) = let rest = strip_newline s in if c == 13 || c == 10 then rest else c ∷ rest
