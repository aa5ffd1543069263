-- ===== src/Vm/Split.antt =====
-- split_args of vm.c, which makes the argument vector of a loader of the lines that were written.
pub mod Lines
use bmd.Prelude.{
  ℕ, suc, ◌+◌, ◌==◌, leb, Bool, true, false, Option, none, some, List, [], ◌∷◌, ◌++◌, Str,
  if◌then◌else◌,
}

-- The byte '\n'.
abbrev pub newline : ℕ
newline = 10

-- The first loop: the number of newlines.
unfoldable pub count_lines : Str → ℕ
count_lines [] = 0
count_lines (c ∷ s) = let rest = count_lines s in if c == newline then rest + 1 else rest

pub cons_first : ℕ → List Str → List Str
cons_first c [] = (c ∷ []) ∷ []
cons_first c (t ∷ ts) = (c ∷ t) ∷ ts

-- What strsep(3) gives, one call after the other: at least one text.
unfoldable pub strsep_all : Str → List Str
unfolding cons_first
strsep_all [] = [] ∷ []
strsep_all (c ∷ s) =
    let rest = strsep_all s in if c == newline then [] ∷ rest else cons_first c rest

-- The second loop. An empty text is overwritten by the next one; the loop also ends when `n` places
-- are filled.
unfoldable pub fill : ℕ → ℕ → List Str → List Str
fill n k [] = []
fill n k ([] ∷ ts) = fill n k ts
fill n k ((c ∷ t) ∷ ts) =
    let rest = fill n (k + 1) ts in if leb n (k + 1) then (c ∷ t) ∷ [] else (c ∷ t) ∷ rest

-- The vector before its NULL. `none`: the buffer has a text but no newline, so that the text takes
-- the place of the NULL and the vector has no end.
unfoldable pub split_args : Str → Option (List Str)
unfolding count_lines strsep_all fill
split_args [] = some []
split_args (c ∷ s) =
    let n = count_lines (c ∷ s) in if n == 0 then none else some (fill n 0 (strsep_all (c ∷ s)))

-- What the calls of fprintf(3) write: each argument and a newline.
unfoldable pub write_lines : List Str → Str
write_lines [] = []
write_lines (l ∷ ls) = l ++ newline ∷ write_lines ls
