-- ===== src/Conf/Nv/Agree.antt =====
-- What compare_nvlist of conf.c compares.
use bmd.Prelude.{
  ℕ, ℤ, pos, negsuc, is_zero, ◌≡◌, ◌↔◌, refl, sym, ap, ◌∙◌, Bool, true, false, Bool-cases,
  Option-cases, inl, inr, Option, some, List, Str, str_eq, strcmp, strcmp_self, strcmp-eq_zero,
  arith, if◌then◌else◌,
}
use bmd.Conf.Compare.{compare_queue}
use mathlib.Core.Path.{subst}
use bmd.Conf.Compare.Zero.{compare_queue_self, compare_queue-eq}
use bmd.Conf.Nv.{
  NvValue, null, bool, number, string, nvlist, descriptor, binary, bool_array, number_array,
  string_array, nvlist_array, descriptor_array, NvList, empty, pair, NvArray, end, item, same_type,
  find_type, cmp, cmp_bool, lacks, compare_value, compare_pairs, compare_items, compare_nvlist,
}

-- Each name of the first list stands in the second with a value of the same type.
abbrev pub HasNames : NvList → NvList → Type 0
HasNames empty b = Unit
HasNames (pair k v l) b = ((w : NvValue) × (find_type b k v ≡ some w)) × HasNames l b

unfoldable mutual
  -- Lists agree if each has the names and types of the other, and the values agree; the order of the
  -- names is free. Arrays agree item by item, other values if they are equal.
  pub Agree : NvValue → NvValue → Type 0
  Agree null null = Unit
  Agree (bool a) (bool b) = a ≡ b
  Agree (number a) (number b) = a ≡ b
  Agree (string a) (string b) = a ≡ b
  Agree (nvlist a) (nvlist b) = AgreeAt a b × HasNames b a
  Agree (descriptor a) (descriptor b) = a ≡ b
  Agree (binary a) (binary b) = a ≡ b
  Agree (bool_array a) (bool_array b) = a ≡ b
  Agree (number_array a) (number_array b) = a ≡ b
  Agree (string_array a) (string_array b) = a ≡ b
  Agree (nvlist_array a) (nvlist_array b) = AgreeItems a b
  Agree (descriptor_array a) (descriptor_array b) = a ≡ b
  Agree _ _ = ⊥

  pub AgreeAt : NvList → NvList → Type 0
  AgreeAt empty b = Unit
  AgreeAt (pair k v l) b = ((w : NvValue) × (find_type b k v ≡ some w) × Agree v w) × AgreeAt l b

  pub AgreeItems : NvArray → NvArray → Type 0
  AgreeItems end end = Unit
  AgreeItems end (item b bs) = ⊥
  AgreeItems (item a xs) end = ⊥
  AgreeItems (item a xs) (item b ys) = (AgreeAt a b × HasNames b a) × AgreeItems xs ys

zero_both :
    (rc rest : ℤ) → ((if is_zero rc then rest else rc) ≡ pos 0) ↔ ((rc ≡ pos 0) × (rest ≡ pos 0))
zero_both rc rest = (λ h. (ground arith, ground arith), λ h. ground arith)

cmp_iff : (a b : ℕ) → (cmp a b ≡ pos 0) ↔ (a ≡ b)
unfolding cmp
cmp_iff a b = (λ h. ground arith, λ h. ground arith)

cmp_bool_iff : (a b : Bool) → (cmp_bool a b ≡ pos 0) ↔ (a ≡ b)
unfolding cmp_bool
cmp_bool_iff false false = (λ h. refl, λ h. refl)
cmp_bool_iff false true = (λ h. cc, λ h. cc)
cmp_bool_iff true false = (λ h. cc, λ h. cc)
cmp_bool_iff true true = (λ h. refl, λ h. refl)

strcmp_iff : (a b : Str) → (strcmp a b ≡ pos 0) ↔ (a ≡ b)
strcmp_iff a b = (strcmp-eq_zero a b, λ e. ap (strcmp a) (sym e) ∙ strcmp_self a)

queue_iff :
    {A : Type 0} (f : A → A → ℤ)
    → ((x y : A) → (f x y ≡ pos 0) ↔ (x ≡ y))
    → (xs ys : List A) → (compare_queue f xs ys ≡ pos 0) ↔ (xs ≡ ys)
queue_iff f same xs ys = (
  compare_queue-eq f (λ x y. (same x y).0) xs ys,
  λ e. ap (compare_queue f xs) (sym e) ∙ compare_queue_self f (λ x. (same x x).1 refl) xs,
)

lacks_iff : (m l : NvList) → (lacks m l ≡ false) ↔ HasNames m l
unfolding lacks
lacks_iff empty l = (λ h. tt, λ h. refl)
lacks_iff (pair k v m) l = elim (Option-cases (find_type l k v)) [
  | inl e ↦ (λ h. cc (rw (e, lacks) at h), λ h. cc (e, h.0.1))
  | inr (w, e) ↦ (
    λ h. ((w, e), (lacks_iff m l).0 (rw (e, lacks) at h)),
    λ h. rw (e, lacks) ((lacks_iff m l).1 h.1),
  )
]

names_iff : (a b : NvList) → ((if lacks b a then negsuc 0 else pos 0) ≡ pos 0) ↔ HasNames b a
names_iff a b = (λ h. (lacks_iff b a).0 (ground arith), λ h. rw ((lacks_iff b a).1 h) refl)

find_type-same_type :
    (l : NvList) (k : Str) (v w : NvValue) → find_type l k v ≡ some w → same_type v w ≡ true
unfolding find_type
find_type-same_type empty k v w e = cc
find_type-same_type (pair j u l) k v w e = elim (Bool-cases (str_eq j k)) [
  | inr f ↦ find_type-same_type l k v w (rw f at e)
  | inl t ↦ elim (Bool-cases (same_type v u)) [
    | inr f ↦ find_type-same_type l k v w (rw (t, f) at e)
    | inl s ↦ cc (rw (t, s) at e, s)
  ]
]

-- The two loops of compare_nvlist.
lists_iff :
    (a b : NvList)
    → ((compare_pairs a b ≡ pos 0) ↔ AgreeAt a b)
    → (compare_value (nvlist a) (nvlist b) ≡ pos 0) ↔ (AgreeAt a b × HasNames b a)
unfolding compare_value
lists_iff a b pairs =
    let names = names_iff a b in
    let both = zero_both (compare_pairs a b) (if lacks b a then negsuc 0 else pos 0) in
    (λ h. (pairs.0 (both.0 h).0, names.0 (both.0 h).1), λ h. both.1 (pairs.1 h.0, names.1 h.1))

pairs_found :
    (k : Str) (v w : NvValue) (l b : NvList)
    → find_type b k v ≡ some w
    → compare_pairs (pair k v l) b
      ≡ (if is_zero (compare_value v w) then compare_pairs l b else compare_value v w)
unfolding compare_value
pairs_found k v w l b e = rw (e, compare_pairs) refl

same_found :
    (o : Option NvValue) (v w w' : NvValue) → o ≡ some w → o ≡ some w' → Agree v w' → Agree v w
same_found o v w w' e e' h = subst (λ u. Agree v u) (cc (e, e')) h

mutual
  unfolding compare_value Agree

  value_iff : (v w : NvValue) → same_type v w ≡ true → (compare_value v w ≡ pos 0) ↔ Agree v w
  value_iff null null h = (λ e. tt, λ e. refl)
  value_iff (bool a) (bool b) h = cmp_bool_iff a b
  value_iff (number a) (number b) h = cmp_iff a b
  value_iff (string a) (string b) h = strcmp_iff a b
  value_iff (nvlist a) (nvlist b) h = lists_iff a b (pairs_iff a b)
  value_iff (descriptor a) (descriptor b) h = cmp_iff a b
  value_iff (binary a) (binary b) h = queue_iff cmp cmp_iff a b
  value_iff (bool_array a) (bool_array b) h = queue_iff cmp_bool cmp_bool_iff a b
  value_iff (number_array a) (number_array b) h = queue_iff cmp cmp_iff a b
  value_iff (string_array a) (string_array b) h = queue_iff strcmp strcmp_iff a b
  value_iff (nvlist_array a) (nvlist_array b) h = items_iff a b
  value_iff (descriptor_array a) (descriptor_array b) h = queue_iff cmp cmp_iff a b
  value_iff _ _ h = cc

  pairs_iff : (l b : NvList) → (compare_pairs l b ≡ pos 0) ↔ AgreeAt l b
  pairs_iff empty b = (λ h. tt, λ h. refl)
  pairs_iff (pair k v l) b = elim (Option-cases (find_type b k v)) [
    | inl e ↦ (λ h. cc (rw (e, compare_pairs) at h), λ h. cc (e, h.0.1))
    | inr (w, e) ↦
        let step = pairs_found k v w l b e in
        let both = zero_both (compare_value v w) (compare_pairs l b) in
        let same = value_iff v w (find_type-same_type b k v w e) in
        let rest = pairs_iff l b in
        (
          λ h. let z = both.0 (sym step ∙ h) in ((w, e, same.0 z.0), rest.0 z.1),
          λ h.
              step
              ∙ both.1 (same.1 (same_found (find_type b k v) v w h.0.0 e h.0.1 h.0.2), rest.1 h.1),
        )
  ]

  items_iff : (xs ys : NvArray) → (compare_items xs ys ≡ pos 0) ↔ AgreeItems xs ys
  items_iff end end = (λ h. tt, λ h. refl)
  items_iff end (item b bs) = (λ h. cc, λ h. elim h [ ])
  items_iff (item a xs) end = (λ h. cc, λ h. elim h [ ])
  items_iff (item a xs) (item b ys) =
      let names = (if lacks b a then negsuc 0 else pos 0) in
      let outer =
        zero_both (compare_pairs a b) (if is_zero names then compare_items xs ys else names) in
      let inner = zero_both names (compare_items xs ys) in
      let rest = items_iff xs ys in
      (
        λ h.
            let z = inner.0 (outer.0 h).1 in
            (((pairs_iff a b).0 (outer.0 h).0, (names_iff a b).0 z.0), rest.0 z.1),
        λ h. outer.1 ((pairs_iff a b).1 h.0.0, inner.1 ((names_iff a b).1 h.0.1, rest.1 h.1)),
      )

-- compare_nvlist gives 0 exactly when the two lists agree: each has the names of the other with
-- values of the same type, in any order, the values of the first list agree with the values that the
-- second has for their names, and lists within the lists are compared in the same way.
pub compare_nvlist-Agree :
    (a b : NvList) → (compare_nvlist a b ≡ pos 0) ↔ Agree (nvlist a) (nvlist b)
unfolding compare_nvlist
compare_nvlist-Agree a b = value_iff (nvlist a) (nvlist b) refl
