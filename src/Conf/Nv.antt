-- ===== src/Conf/Nv.antt =====
-- Name/value lists: the data of nv(9), in which plugins keep their configuration, and the
-- comparison of two of them in conf.c. The lists are made by `nvlist_create(0)`, so no two names
-- agree, and none is in its error state.
pub mod Agree
use bmd.Prelude.{
  ℕ, ℤ, pos, negsuc, is_zero, Bool, true, false, Option, none, some, List, Str, str_eq, strcmp, ltb,
  ◌==◌, if◌then◌else◌,
}
use bmd.Conf.Compare.{compare_queue}

mutual
  pub data NvValue : Type 0 where
    null : NvValue
    bool : Bool → NvValue
    number : ℕ → NvValue
    string : Str → NvValue
    nvlist : NvList → NvValue
    descriptor : ℕ → NvValue
    binary : Str → NvValue
    bool_array : List Bool → NvValue
    number_array : List ℕ → NvValue
    string_array : List Str → NvValue
    nvlist_array : NvArray → NvValue
    descriptor_array : List ℕ → NvValue

  pub data NvList : Type 0 where
    empty : NvList
    pair : Str → NvValue → NvList → NvList

  pub data NvArray : Type 0 where
    end : NvArray
    item : NvList → NvArray → NvArray

-- Whether two values have one type.
abbrev pub same_type : NvValue → NvValue → Bool
same_type null null = true
same_type (bool a) (bool b) = true
same_type (number a) (number b) = true
same_type (string a) (string b) = true
same_type (nvlist a) (nvlist b) = true
same_type (descriptor a) (descriptor b) = true
same_type (binary a) (binary b) = true
same_type (bool_array a) (bool_array b) = true
same_type (number_array a) (number_array b) = true
same_type (string_array a) (string_array b) = true
same_type (nvlist_array a) (nvlist_array b) = true
same_type (descriptor_array a) (descriptor_array b) = true
same_type _ _ = false

-- nvlist_exists_type and the nvlist_get functions: the value of a name, if it has the type of `v`.
unfoldable pub find_type : NvList → Str → NvValue → Option NvValue
unfolding str_eq
find_type empty k v = none
find_type (pair j w l) k v =
    let rest = find_type l k v in
    if str_eq j k then (if same_type v w then some w else rest) else rest

-- The macro CMP.
unfoldable pub cmp : ℕ → ℕ → ℤ
cmp a b = if ltb a b then negsuc 0 else if a == b then pos 0 else pos 1

-- The macro CMP at two bools.
unfoldable pub cmp_bool : Bool → Bool → ℤ
cmp_bool false true = negsuc 0
cmp_bool true false = pos 1
cmp_bool false false = pos 0
cmp_bool true true = pos 0

-- The second loop of compare_nvlist: a name of the first list that the second lacks.
unfoldable pub lacks : NvList → NvList → Bool
unfolding find_type
lacks empty l = false
lacks (pair k v m) l =
    let rest = lacks m l in elim (find_type l k v) [ none ↦ true | some w ↦ rest ]

unfoldable mutual
  unfolding cmp cmp_bool compare_queue find_type lacks

  -- The functions compare_nvlist_null to compare_nvlist_descriptor_array, at values of one type.
  pub compare_value : NvValue → NvValue → ℤ
  compare_value (bool a) (bool b) = cmp_bool a b
  compare_value (number a) (number b) = cmp a b
  compare_value (string a) (string b) = strcmp a b
  compare_value (nvlist a) (nvlist b) =
      let rest = (if lacks b a then negsuc 0 else pos 0) in
      let rc = compare_pairs a b in if is_zero rc then rest else rc
  compare_value (descriptor a) (descriptor b) = cmp a b
  compare_value (binary a) (binary b) = compare_queue cmp a b
  compare_value (bool_array a) (bool_array b) = compare_queue cmp_bool a b
  compare_value (number_array a) (number_array b) = compare_queue cmp a b
  compare_value (string_array a) (string_array b) = compare_queue strcmp a b
  compare_value (nvlist_array a) (nvlist_array b) = compare_items a b
  compare_value (descriptor_array a) (descriptor_array b) = compare_queue cmp a b
  compare_value _ _ = pos 0

  -- The first loop of compare_nvlist.
  pub compare_pairs : NvList → NvList → ℤ
  compare_pairs empty b = pos 0
  compare_pairs (pair k v l) b =
      let rest = compare_pairs l b in
      let rc : ℤ = elim (find_type b k v) [ none ↦ pos 1 | some w ↦ compare_value v w ] in
      if is_zero rc then rest else rc

  -- The loop of compare_nvlist_nvlist_array.
  pub compare_items : NvArray → NvArray → ℤ
  compare_items end end = pos 0
  compare_items end (item b bs) = negsuc 0
  compare_items (item a xs) end = pos 1
  compare_items (item a xs) (item b ys) =
      let rest = compare_items xs ys in
      let last = (if lacks b a then negsuc 0 else pos 0) in
      let rc = compare_pairs a b in if is_zero rc then (if is_zero last then rest else last) else rc

unfoldable pub compare_nvlist : NvList → NvList → ℤ
unfolding compare_value
compare_nvlist a b = compare_value (nvlist a) (nvlist b)
