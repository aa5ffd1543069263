-- ===== src/Vm/Split/Lines.antt =====
-- The lines that are written and split again.
use bmd.Prelude.{
  ℕ, suc, ◌+◌, ◌≤◌, leb, ◌≡◌, ◌≢◌, refl, sym, ap, ◌∙◌, false, some, List, [], ◌∷◌, ◌++◌, Str,
  length, All, arith,
}
use bmd.Vm.Split.{newline, count_lines, cons_first, strsep_all, fill, split_args, write_lines}

-- A text without a newline.
abbrev pub IsLine : Str → Type 0
IsLine s = All (λ c. c ≢ newline) s

-- The texts that are not empty.
abbrev pub not_empty : List Str → List Str
not_empty [] = []
not_empty ([] ∷ ts) = not_empty ts
not_empty ((c ∷ t) ∷ ts) = (c ∷ t) ∷ not_empty ts

count_line : (l s : Str) → IsLine l → count_lines (l ++ newline ∷ s) ≡ count_lines s + 1
unfolding count_lines
count_line [] s h = refl
count_line (c ∷ l) s h = ground (arith, h.0, count_line l s h.1)

count_lines_lem : (ls : List Str) → All IsLine ls → count_lines (write_lines ls) ≡ length ls
unfolding count_lines write_lines
count_lines_lem [] h = refl
count_lines_lem (l ∷ ls) h =
    count_line l (write_lines ls) h.0 ∙ omega (arith, count_lines_lem ls h.1)

strsep_line : (l s : Str) → IsLine l → strsep_all (l ++ newline ∷ s) ≡ l ∷ strsep_all s
unfolding strsep_all cons_first
strsep_line [] s h = refl
strsep_line (c ∷ l) s h = ground (arith, h.0, strsep_line l s h.1)

strsep_lines : (ls : List Str) → All IsLine ls → strsep_all (write_lines ls) ≡ ls ++ [] ∷ []
unfolding write_lines
strsep_lines [] h = unfold strsep_all in refl
strsep_lines (l ∷ ls) h = strsep_line l (write_lines ls) h.0 ∙ ap (λ t. l ∷ t) (strsep_lines ls h.1)

fill_lines : (n k : ℕ) (ls : List Str) → k + length ls ≤ n → fill n k (ls ++ [] ∷ []) ≡ not_empty ls
unfolding fill
fill_lines n k [] h = refl
fill_lines n k ([] ∷ ls) h = fill_lines n k ls (omega arith)
fill_lines n k ((c ∷ t) ∷ []) h = ground arith
fill_lines n k ((c ∷ t) ∷ l ∷ ls) h =
    let more : leb n (k + 1) ≡ false = ground arith in
    rw more (ap (λ r. (c ∷ t) ∷ r) (fill_lines n (k + 1) (l ∷ ls) (omega arith)))

split_buffer :
    (c : ℕ) (s : Str) (n : ℕ)
    → count_lines (c ∷ s) ≡ suc n
    → split_args (c ∷ s) ≡ some (fill (suc n) 0 (strsep_all (c ∷ s)))
unfolding split_args
split_buffer c s n e = rw e (ground arith)

split_written :
    (ls : List Str) (n : ℕ) (s : Str)
    → write_lines ls ≡ s
    → s ≢ []
    → length ls ≡ suc n
    → All IsLine ls
    → split_args s ≡ some (fill (suc n) 0 (ls ++ [] ∷ []))
split_written ls n [] e ne l h = absurd (ne refl)
split_written ls n (c ∷ s) e ne l h =
    let count : count_lines (c ∷ s) ≡ suc n = ap count_lines (sym e) ∙ count_lines_lem ls h ∙ l in
    let texts : strsep_all (c ∷ s) ≡ ls ++ [] ∷ [] = ap strsep_all (sym e) ∙ strsep_lines ls h in
    split_buffer c s n count ∙ ap (λ t. some (fill (suc n) 0 t)) texts

written-ne : (l : Str) (ls : List Str) → write_lines (l ∷ ls) ≢ []
unfolding write_lines
written-ne [] ls e = cc
written-ne (c ∷ l) ls e = cc

-- Whatever arguments without a newline are written, each with a newline behind it, split_args gives
-- them back in their order, less those that are empty.
pub split_args-write_lines :
    (ls : List Str) → All IsLine ls → split_args (write_lines ls) ≡ some (not_empty ls)
split_args-write_lines [] h = unfold split_args write_lines in refl
split_args-write_lines (l ∷ ls) h =
    split_written (l ∷ ls) (length ls) _ refl (written-ne l ls) refl h
    ∙ ap some (fill_lines (suc (length ls)) 0 (l ∷ ls) (omega arith))
