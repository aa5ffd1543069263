-- ===== src/Conf/Create/Ids.antt =====
-- The list of identifiers of conf.c: a name keeps the number that it was first given.
use bmd.Prelude.{
  ℕ, ◌+◌, ◌%◌, ◌^◌, ◌<◌, ◌≡◌, Option, none, some, List, [], ◌∷◌, Str, str_eq, str_eq_iff, arith,
  if◌then◌else◌, Option-cases, inl, inr,
}

-- `lastid` is an `unsigned int`.
pub record IdList : Type 0 where
  pub entries : List (Str × ℕ)
  pub lastid : ℕ

unfoldable pub lookup_id : List (Str × ℕ) → Str → Option ℕ
lookup_id [] name = none
lookup_id ((n, id) ∷ es) name =
    let rest = lookup_id es name in if str_eq n name then some id else rest

enter : IdList → Str → Option ℕ → ℕ × IdList
enter ids name (some id) = (id, ids)
enter ids name none =
    let next = (ids.lastid + 1) % 2 ^ 32 in
    (ids.lastid, record { entries = (name, ids.lastid) ∷ ids.entries; lastid = next })

unfoldable pub get_id : IdList → Str → ℕ × IdList
unfolding lookup_id enter
get_id ids name = enter ids name (lookup_id ids.entries name)

-- Every number in the list is below the next one, and belongs to one name.
pub record IsUnique (ids : IdList) : Type 0 where
  pub below : (name : Str) (id : ℕ) → lookup_id ids.entries name ≡ some id → id < ids.lastid
  pub distinct :
      (n m : Str) (id : ℕ)
      → lookup_id ids.entries n ≡ some id
      → lookup_id ids.entries m ≡ some id
      → n ≡ m

-- The number that get_id returns is the one that the list then holds for the name.
pub lookup-get_id :
    (ids : IdList) (name : Str)
    → lookup_id (get_id ids name).1.entries name ≡ some (get_id ids name).0
unfolding get_id
lookup-get_id ids name = ground (arith, str_eq_iff name name)

-- While the counter does not wrap, get_id keeps the numbers unique, and every name that had a
-- number keeps it.
pub get_id-IsUnique :
    (ids : IdList) (name : Str)
    → ids.lastid + 1 < 2 ^ 32
    → IsUnique ids
    → IsUnique (get_id ids name).1
      × ((n : Str) (id : ℕ)
          → lookup_id ids.entries n ≡ some id
          → lookup_id (get_id ids name).1.entries n ≡ some id)
unfolding get_id
get_id-IsUnique ids name small u = elim (Option-cases (lookup_id ids.entries name)) [
  | inr (id, known) ↦ rw known (u, λ n i h. h)
  | inl new ↦ rw new (
    record {
      below = λ n i h. ground (arith, u.below n i, str_eq_iff name n);
      distinct = λ n m i h k.
          ground (
            arith,
            u.below n i,
            u.below m i,
            u.distinct n m i,
            str_eq_iff name n,
            str_eq_iff name m,
          );
    },
    λ n i h. ground (arith, str_eq_iff name n),
  )
]
