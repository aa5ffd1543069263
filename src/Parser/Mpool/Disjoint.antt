-- ===== src/Parser/Mpool/Disjoint.antt =====
-- The chunks that the pool has given do not overlap.
use bmd.Prelude.{
  ℕ, ◌+◌, ◌-◌, ◌^◌, ◌≤◌, ◌<◌, ◌≡◌, refl, ◌⊎◌, inl, inr, true, leb, ltb, Option, none, some, List,
  [], ◌∷◌, All, Bool-cases, arith,
}
use bmd.Parser.Mpool.{Mpool, mmap_size, header_size, roundup, take_room, or_error, mpool_alloc}

-- Two blocks have no byte in common.
abbrev AreApart : Mpool → Mpool → Type 0
AreApart p q = (p.stop ≤ q.base) ⊎ (q.stop ≤ p.base)

pub record IsBlock (m : Mpool) : Type 0 where
  pub start : m.base ≤ m.used
  pub inside : m.used ≤ m.stop

-- The blocks of the pool are well formed and apart.
abbrev pub IsPool : List Mpool → Type 0
IsPool [] = Unit
IsPool (m ∷ ms) = IsBlock m × All (AreApart m) ms × IsPool ms

-- A chunk: its address and its size.
abbrev pub Chunk : Type 0
Chunk = ℕ × ℕ

-- The chunk lies in the used part of some block.
abbrev pub IsGiven : List Mpool → Chunk → Type 0
IsGiven [] c = ⊥
IsGiven (m ∷ ms) c = ((m.base ≤ c.0) × (c.0 + c.1 ≤ m.used)) ⊎ IsGiven ms c

abbrev pub AreDisjoint : Chunk → Chunk → Type 0
AreDisjoint c d = (c.0 + c.1 ≤ d.0) ⊎ (d.0 + d.1 ≤ c.0)

-- What is given in other blocks is outside this one.
outside :
    (m : Mpool) (ms : List Mpool) (c : Chunk)
    → All (AreApart m) ms
    → IsPool ms
    → IsGiven ms c
    → (c.0 + c.1 ≤ m.base) ⊎ (m.stop ≤ c.0)
outside m (q ∷ qs) c (a, apart) (b, more, pool) (inl given) = ground (arith, a, b.inside, given)
outside m (q ∷ qs) c (a, apart) (b, more, pool) (inr given) = outside m qs c apart pool given
outside m [] c apart pool given = elim given [ ]

-- The new chunk is given, and the old ones stay so.
take_room-IsGiven :
    (sz : ℕ) (ms : List Mpool) (a : ℕ)
    → IsPool ms
    → (take_room sz ms).0 ≡ some a
    → IsGiven (take_room sz ms).1 (a, sz)
unfolding take_room
take_room-IsGiven sz [] a pool h = cc
take_room-IsGiven sz (m ∷ ms) a (b, apart, pool) h = elim (Bool-cases (leb (m.used + sz) m.stop)) [
  | inl fits ↦
      let here : some m.used ≡ some a = cc (fits, h) in
      rw fits (inl (ground (arith, here, b.start), ground (arith, here)))
  | inr full ↦ rw full (inr (take_room-IsGiven sz ms a pool (cc (full, h))))
]

IsGiven-kept : (sz : ℕ) (ms : List Mpool) (c : Chunk) → IsGiven ms c → IsGiven (take_room sz ms).1 c
unfolding take_room
IsGiven-kept sz [] c given = given
IsGiven-kept sz (m ∷ ms) c given = elim (Bool-cases (leb (m.used + sz) m.stop)) [
  | inl fits ↦ rw fits (grown given)
  | inr full ↦ rw full (further (IsGiven-kept sz ms c) given)
]
  where
    grown : IsGiven (m ∷ ms) c → IsGiven (record m { used = m.used + sz } ∷ ms) c
    grown (inl g) = inl (g.0, omega (arith, g.1))
    grown (inr g) = inr g

    further :
        (IsGiven ms c → IsGiven (take_room sz ms).1 c)
        → IsGiven (m ∷ ms) c
        → IsGiven (m ∷ (take_room sz ms).1) c
    further rest (inl g) = inl g
    further rest (inr g) = inr (rest g)

apart_kept :
    (m : Mpool) (sz : ℕ) (ms : List Mpool)
    → All (AreApart m) ms
    → All (AreApart m) (take_room sz ms).1
unfolding take_room
apart_kept m sz [] apart = apart
apart_kept m sz (q ∷ qs) (a, apart) = elim (Bool-cases (leb (q.used + sz) q.stop)) [
  | inl fits ↦ rw fits (a, apart)
  | inr full ↦ rw full (a, apart_kept m sz qs apart)
]

take_room-IsPool : (sz : ℕ) (ms : List Mpool) → IsPool ms → IsPool (take_room sz ms).1
unfolding take_room
take_room-IsPool sz [] pool = pool
take_room-IsPool sz (m ∷ ms) (b, apart, pool) = elim (Bool-cases (leb (m.used + sz) m.stop)) [
  | inl fits ↦
      rw fits
        (record { start = omega (arith, b.start); inside = ground (arith, fits) }, apart, pool)
  | inr full ↦ rw full (b, apart_kept m sz ms apart, take_room-IsPool sz ms pool)
]

take_room-AreDisjoint :
    (sz : ℕ) (ms : List Mpool) (c : Chunk) (a : ℕ)
    → IsPool ms
    → IsGiven ms c
    → (take_room sz ms).0 ≡ some a
    → AreDisjoint c (a, sz)
unfolding take_room
take_room-AreDisjoint sz [] c a pool given h = cc
take_room-AreDisjoint sz (m ∷ ms) c a (b, apart, pool) given h =
    elim (Bool-cases (leb (m.used + sz) m.stop)) [
      | inl fits ↦ here (cc (fits, h)) fits given
      | inr full ↦
          later (cc (full, h)) (λ g. take_room-AreDisjoint sz ms c a pool g (cc (full, h))) given
    ]
  where
    here :
        some m.used ≡ some a
        → leb (m.used + sz) m.stop ≡ true
        → IsGiven (m ∷ ms) c
        → AreDisjoint c (a, sz)
    here at fits (inl g) = ground (arith, at, g)
    here at fits (inr g) = ground (arith, at, fits, b.start, outside m ms c apart pool g)

    later :
        (take_room sz ms).0 ≡ some a
        → (IsGiven ms c → AreDisjoint c (a, sz))
        → IsGiven (m ∷ ms) c
        → AreDisjoint c (a, sz)
    later h' rest (inl g) = ground (
      arith,
      g,
      b.inside,
      outside m (take_room sz ms).1 (a, sz) (apart_kept m sz ms apart) (take_room-IsPool sz ms pool)
          (take_room-IsGiven sz ms a pool h'),
    )
    later h' rest (inr g) = rest g

or_error-some :
    (pools : List Mpool) (r : Option ℕ × List Mpool) (a : ℕ)
    → (or_error pools r).0 ≡ some a
    → (r.0 ≡ some a) × ((or_error pools r).1 ≡ r.1)
unfolding or_error
or_error-some pools (none, rest) a h = cc
or_error-some pools (some b, rest) a h = (h, refl)

alloc_some :
    (sz : ℕ) (pools : List Mpool) (a : ℕ)
    → (mpool_alloc sz pools).0 ≡ some a
    → ((take_room (roundup sz) pools).0 ≡ some a)
      × ((mpool_alloc sz pools).1 ≡ (take_room (roundup sz) pools).1)
unfolding mpool_alloc
alloc_some sz pools a h = elim (Bool-cases (ltb (mmap_size - header_size) (roundup sz))) [
  | inl big ↦ cc (big, h)
  | inr small ↦ rw small (or_error-some pools (take_room (roundup sz) pools) a (cc (small, h)))
]

roundup_least : (sz : ℕ) → sz + 7 < 2 ^ 64 → sz ≤ roundup sz
unfolding roundup
roundup_least sz h = omega arith

-- Where the blocks of the pool are apart, a chunk that is allocated is at least as large as asked
-- for and has no byte in common with a chunk that was given before. Both lie in the used part of
-- blocks afterwards, and the blocks are still apart. The size is not near the limit of `size_t`.
pub mpool_alloc-AreDisjoint :
    (sz : ℕ) (pools : List Mpool) (c : Chunk) (a : ℕ)
    → sz + 7 < 2 ^ 64
    → IsPool pools
    → IsGiven pools c
    → (mpool_alloc sz pools).0 ≡ some a
    → (sz ≤ roundup sz)
      × AreDisjoint c (a, roundup sz)
      × IsGiven (mpool_alloc sz pools).1 (a, roundup sz)
      × IsGiven (mpool_alloc sz pools).1 c
      × IsPool (mpool_alloc sz pools).1
mpool_alloc-AreDisjoint sz pools c a small pool given h =
    let (at, same) = alloc_some sz pools a h in
    let n = roundup sz in
    rw same (
      roundup_least sz small,
      take_room-AreDisjoint n pools c a pool given at,
      take_room-IsGiven n pools a pool at,
      IsGiven-kept n pools c given,
      take_room-IsPool n pools pool,
    )
