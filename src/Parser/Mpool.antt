-- ===== src/Parser/Mpool.antt =====
-- The memory pool of parser.c: blocks of mmap(2), each filled from its start. A pointer is its
-- address, and `size_t` arithmetic wraps at 64 bits.
pub mod Disjoint
pub mod Rollback
use bmd.Prelude.{
  ℕ, ◌+◌, ◌-◌, ◌*◌, ◌/◌, ◌%◌, ◌^◌, ◌≤◌, ◌<◌, Bool, true, false, ◌==◌, leb, ltb, Option, none, some,
  List, [], ◌∷◌, ◌++◌, if◌then◌else◌,
}

pub data MpoolError : Type 0 where
  mperr_none mperr_alloc mperr_fatal : MpoolError

-- `base` is the address of the block itself.
pub record Mpool : Type 0 where
  pub base : ℕ
  pub stop : ℕ
  pub used : ℕ
  pub last_used : ℕ
  pub error_number : MpoolError

-- DEFAULT_MMAP_SIZE with pages of 4096 bytes, and sizeof(struct mpool).
abbrev pub mmap_size : ℕ
mmap_size = 262144

abbrev pub header_size : ℕ
header_size = 40

-- What mmap(2) gives: `none` is MAP_FAILED, which the code does not look for and writes to.
pub data Expanded : Type 0 where
  expanded : List Mpool → Expanded
  refused fault : Expanded

abbrev pub new_block : ℕ → Mpool
new_block a = record {
  base = a;
  stop = a + mmap_size;
  used = a + header_size;
  last_used = a + header_size;
  error_number = mperr_none;
}

unfoldable pub mpool_expand : Option ℕ → List Mpool → Expanded
mpool_expand none pools = fault
mpool_expand (some a) pools = if a == 0 then refused else expanded (pools ++ new_block a ∷ [])

unfoldable pub mpool_snapshot : List Mpool → List Mpool
mpool_snapshot [] = []
mpool_snapshot (m ∷ ms) =
    record m { last_used = m.used; error_number = mperr_none } ∷ mpool_snapshot ms

unfoldable pub mpool_rollback : List Mpool → List Mpool
mpool_rollback [] = []
mpool_rollback (m ∷ ms) = record m { used = m.last_used } ∷ mpool_rollback ms

abbrev error_int : MpoolError → ℕ
error_int mperr_none = 0
error_int mperr_alloc = 1
error_int mperr_fatal = 2

worst : MpoolError → List Mpool → MpoolError
worst e [] = e
worst e (m ∷ ms) =
    worst (if ltb (error_int e) (error_int m.error_number) then m.error_number else e) ms

unfoldable pub mpool_get_error : List Mpool → MpoolError
unfolding worst
mpool_get_error pools = worst mperr_none pools

-- The macro roundup2 at 8.
unfoldable pub roundup : ℕ → ℕ
roundup sz = (sz + 7) % 2 ^ 64 / 8 * 8

-- The first block with room; `none` if there is no such block.
pub take_room : ℕ → List Mpool → Option ℕ × List Mpool
take_room sz [] = (none, [])
take_room sz (m ∷ ms) =
    let (r, rest) = take_room sz ms in
    if leb (m.used + sz) m.stop
    then (some m.used, record m { used = m.used + sz } ∷ ms)
    else (r, m ∷ rest)

-- `STAILQ_FIRST(&mpools)->error_number = e`; there is a first block since mpool_init.
pub set_error : MpoolError → List Mpool → List Mpool
set_error e [] = []
set_error e (m ∷ ms) = record m { error_number = e } ∷ ms

pub or_error : List Mpool → Option ℕ × List Mpool → Option ℕ × List Mpool
unfolding set_error
or_error pools (none, rest) = (none, set_error mperr_alloc pools)
or_error pools (some a, rest) = (some a, rest)

unfoldable pub mpool_alloc : ℕ → List Mpool → Option ℕ × List Mpool
unfolding roundup take_room set_error or_error
mpool_alloc sz pools =
    if ltb (mmap_size - header_size) (roundup sz)
    then (none, set_error mperr_fatal pools)
    else or_error pools (take_room (roundup sz) pools)
