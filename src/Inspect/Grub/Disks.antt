-- ===== src/Inspect/Grub/Disks.antt =====
-- The disks that grub lists: parse_disks and compare_disk_info of inspect_grub.c.
use bmd.Prelude.{
  ℕ, ◌==◌, ℤ, pos, ◌-ℤ◌, is_zero, ltb_ℤ, Option, none, some, List, [], ◌∷◌, ◌++◌, Str, strcmp,
  if◌then◌else◌,
}
use bmd.Conf.Compare.{to_int}
use bmd.Parser.Numbers.{strtol}
use bmd.Inspect.Names.{is_digit}

-- A `part_name` and a `slice_name` that are not NULL, with their index.
pub record DiskInfo : Type 0 where
  pub orig_name : Str
  pub disk_name : Str
  pub part : Option (Str × ℤ)
  pub slice : Option (Str × ℤ)

-- What stands before the first digit, and the rest.
unfoldable pub to_digit : Str → Str × Str
unfolding is_digit
to_digit [] = ([], [])
to_digit (c ∷ s) = let (a, b) = to_digit s in if is_digit c then ([], c ∷ s) else (c ∷ a, b)

unfoldable pub named_index : Str → Str × ℤ
unfolding to_digit strtol to_int
named_index token = let (name, n) = to_digit token in (name, to_int (strtol 10 n).0)

pub cons_first : ℕ → List Str → List Str
cons_first c [] = (c ∷ []) ∷ []
cons_first c (t ∷ ts) = (c ∷ t) ∷ ts

-- strsep(&s, ","), called until it returns NULL.
unfoldable pub commas : Str → List Str
unfolding cons_first
commas [] = [] ∷ []
commas (c ∷ s) = let rest = commas s in if c == b',' then [] ∷ rest else cons_first c rest

pub info_of : Str → List Str → DiskInfo
unfolding named_index
info_of name [] = record { orig_name = name; disk_name = []; part = none; slice = none }
info_of name (d ∷ []) = record { orig_name = name; disk_name = d; part = none; slice = none }
info_of name (d ∷ p ∷ []) = record {
  orig_name = name;
  disk_name = d;
  part = some (named_index p);
  slice = none;
}
info_of name (d ∷ p ∷ s ∷ _) = record {
  orig_name = name;
  disk_name = d;
  part = some (named_index p);
  slice = some (named_index s);
}

unfoldable pub disk_info : Str → DiskInfo
unfolding commas info_of
disk_info name = info_of name (commas name)

-- The place of the loop: outside the brackets, or inside behind some bytes.
pub next_place : Option Str → ℕ → Option Str
next_place none c = if c == b'(' then some [] else none
next_place (some a) c = if c == b')' then none else some (a ++ c ∷ [])

pub emit : Option Str → ℕ → List Str → List Str
emit none c rest = rest
emit (some a) c rest = if c == b')' then a ∷ rest else rest

-- The texts in brackets.
unfoldable pub bracketed : Option Str → Str → List Str
unfolding next_place emit
bracketed place [] = []
bracketed place (c ∷ s) = let rest = bracketed (next_place place c) s in emit place c rest

-- The first of two results that is not 0.
infixr 20 ◌or_else◌
pub ◌or_else◌ : ℤ → ℤ → ℤ
a or_else b = if is_zero a then b else a

-- A NULL name comes last.
pub compare_part : Option (Str × ℤ) → Option (Str × ℤ) → ℤ → ℤ
unfolding ◌or_else◌ strcmp ◌-ℤ◌ to_int
compare_part none none same = pos 0
compare_part none (some q) same = pos 1
compare_part (some p) none same = ℤ.negsuc 0
compare_part (some (p, m)) (some (q, n)) same = strcmp p q or_else (to_int (m -ℤ n) or_else same)

unfoldable pub compare_disk_info : DiskInfo → DiskInfo → ℤ
unfolding compare_part ◌or_else◌ strcmp
compare_disk_info a b =
    strcmp a.disk_name b.disk_name
    or_else compare_part a.part b.part (compare_part a.slice b.slice (pos 0))

-- A stable sort, as SLIST_MERGESORT is.
pub insert_info : DiskInfo → List DiskInfo → List DiskInfo
unfolding compare_disk_info
insert_info d [] = d ∷ []
insert_info d (e ∷ es) =
    let rest = insert_info d es in
    if ltb_ℤ (pos 0) (compare_disk_info d e) then e ∷ rest else d ∷ e ∷ es

pub sort_disk_info_list : List DiskInfo → List DiskInfo
unfolding insert_info
sort_disk_info_list [] = []
sort_disk_info_list (d ∷ ds) = insert_info d (sort_disk_info_list ds)

-- Each text in brackets is entered at the head of the list.
pub head_first : List Str → List DiskInfo → List DiskInfo
unfolding disk_info
head_first [] list = list
head_first (n ∷ ns) list = head_first ns (disk_info n ∷ list)

unfoldable pub parse_disks : Str → List DiskInfo
unfolding bracketed head_first sort_disk_info_list
parse_disks line = sort_disk_info_list (head_first (bracketed none line) [])
