-- ===== src/Parser/Mpool/Rollback.antt =====
-- A rollback gives back what was allocated since the snapshot.
use bmd.Prelude.{
  ℕ, ◌+◌, ◌-◌, ◌≡◌, refl, ◌∙◌, ap, inl, inr, leb, ltb, Option, none, some, List, [], ◌∷◌,
  Bool-cases,
}
use bmd.Parser.Mpool.{
  Mpool, MpoolError, mmap_size, header_size, roundup, take_room, set_error, or_error, mpool_alloc,
  mpool_snapshot, mpool_rollback,
}

-- What a block has given, as the parser sees it.
abbrev pub used_parts : List Mpool → List (ℕ × ℕ)
used_parts [] = []
used_parts (m ∷ ms) = (m.base, m.used) ∷ used_parts ms

abbrev last_parts : List Mpool → List (ℕ × ℕ)
last_parts [] = []
last_parts (m ∷ ms) = (m.base, m.last_used) ∷ last_parts ms

rollback_parts : (ms : List Mpool) → used_parts (mpool_rollback ms) ≡ last_parts ms
unfolding mpool_rollback
rollback_parts [] = refl
rollback_parts (m ∷ ms) = ap (λ t. (m.base, m.last_used) ∷ t) (rollback_parts ms)

snapshot_parts : (ms : List Mpool) → last_parts (mpool_snapshot ms) ≡ used_parts ms
unfolding mpool_snapshot
snapshot_parts [] = refl
snapshot_parts (m ∷ ms) = ap (λ t. (m.base, m.used) ∷ t) (snapshot_parts ms)

take_room_parts : (sz : ℕ) (ms : List Mpool) → last_parts (take_room sz ms).1 ≡ last_parts ms
unfolding take_room
take_room_parts sz [] = refl
take_room_parts sz (m ∷ ms) = elim (Bool-cases (leb (m.used + sz) m.stop)) [
  | inl fits ↦ rw fits refl
  | inr full ↦ rw full (ap (λ t. (m.base, m.last_used) ∷ t) (take_room_parts sz ms))
]

set_error_parts : (e : MpoolError) (ms : List Mpool) → last_parts (set_error e ms) ≡ last_parts ms
unfolding set_error
set_error_parts e [] = refl
set_error_parts e (m ∷ ms) = refl

or_error_parts :
    (ms : List Mpool) (r : Option ℕ × List Mpool)
    → last_parts r.1 ≡ last_parts ms
    → last_parts (or_error ms r).1 ≡ last_parts ms
unfolding or_error
or_error_parts ms (none, rest) h = set_error_parts _ ms
or_error_parts ms (some a, rest) h = h

alloc_parts : (sz : ℕ) (ms : List Mpool) → last_parts (mpool_alloc sz ms).1 ≡ last_parts ms
unfolding mpool_alloc
alloc_parts sz ms = elim (Bool-cases (ltb (mmap_size - header_size) (roundup sz))) [
  | inl big ↦ rw big (set_error_parts _ ms)
  | inr small ↦
      rw small (or_error_parts ms (take_room (roundup sz) ms) (take_room_parts (roundup sz) ms))
]

-- Allocations of these sizes, one after the other.
abbrev pub alloc_all : List ℕ → List Mpool → List Mpool
alloc_all [] ms = ms
alloc_all (sz ∷ szs) ms = alloc_all szs (mpool_alloc sz ms).1

alloc_all_parts : (szs : List ℕ) (ms : List Mpool) → last_parts (alloc_all szs ms) ≡ last_parts ms
alloc_all_parts [] ms = refl
alloc_all_parts (sz ∷ szs) ms = alloc_all_parts szs (mpool_alloc sz ms).1 ∙ alloc_parts sz ms

-- Whatever is allocated after a snapshot, successfully or not, a rollback leaves each block filled
-- as it was at the snapshot.
pub mpool_rollback-mpool_snapshot :
    (szs : List ℕ) (ms : List Mpool)
    → used_parts (mpool_rollback (alloc_all szs (mpool_snapshot ms))) ≡ used_parts ms
mpool_rollback-mpool_snapshot szs ms =
    rollback_parts (alloc_all szs (mpool_snapshot ms))
    ∙ alloc_all_parts szs (mpool_snapshot ms)
    ∙ snapshot_parts ms
