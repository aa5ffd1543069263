-- ===== src/Parser/Parse/Memory.antt =====
-- The memory of a child of parse: the blocks of the pool.
use bmd.Prelude.{
  map, ℕ, suc, ◌≤◌, ◌≡◌, refl, ap, true, false, Option, none, some, List, [], ◌∷◌, ◌++◌, Str,
  length, arith, ◌==◌, ◌≢◌,
}
use bmd.Parser.Mpool.{
  Mpool, MpoolError, mperr_alloc, Expanded, mpool_expand, mpool_snapshot, mpool_rollback,
  mpool_get_error, new_block,
}
use bmd.Parser.Files.{ParserContext, FileEnv, exited, child}
use bmd.Parser.Parse.{at_file}
use bmd.Parser.Parse.Lists.{Agrees, Extends}

-- A block is used further, or has an error: it lies where it was, and its mark is the old one.
abbrev pub IsSameBlock : Mpool → Mpool → Type 0
IsSameBlock m n = (n.base ≡ m.base) × (n.stop ≡ m.stop) × (n.last_used ≡ m.last_used)

abbrev pub AreSameBlocks : List Mpool → List Mpool → Type 0
AreSameBlocks [] [] = Unit {0}
AreSameBlocks [] (n ∷ ns) = ⊥
AreSameBlocks (m ∷ ms) [] = ⊥
AreSameBlocks (m ∷ ms) (n ∷ ns) = IsSameBlock m n × AreSameBlocks ms ns

snapshot-rollback_block :
    (m n : Mpool)
    → IsSameBlock (record m { last_used = m.used; error_number = MpoolError.mperr_none }) n
    → record n { used = n.last_used; last_used = n.last_used; error_number = MpoolError.mperr_none }
      ≡ record m { last_used = m.used; error_number = MpoolError.mperr_none }
snapshot-rollback_block m n h = ground arith

pub snapshot-rollback :
    (ms ns : List Mpool)
    → AreSameBlocks (mpool_snapshot ms) ns
    → mpool_snapshot (mpool_rollback ns) ≡ mpool_snapshot ms
unfolding mpool_snapshot mpool_rollback
snapshot-rollback [] [] h = refl
snapshot-rollback [] (n ∷ ns) h = elim h [ ]
snapshot-rollback (m ∷ ms) [] h = elim h [ ]
snapshot-rollback (m ∷ ms) (n ∷ ns) h =
    cc (snapshot-rollback_block m n h.0, snapshot-rollback ms ns h.1)

pub snapshot-append :
    (ms ns : List Mpool) → mpool_snapshot (ms ++ ns) ≡ mpool_snapshot ms ++ mpool_snapshot ns
unfolding mpool_snapshot
snapshot-append [] ns = refl
snapshot-append (m ∷ ms) ns = cc (snapshot-append ms ns)

-- What the generated parser does to the memory where it fails, from any context that agrees with
-- `ctx`: it takes room in the blocks, enters sections and files behind those that there are, and
-- counts duplicates in sections that there are.
abbrev pub IsAllocator : FileEnv → Str → ParserContext → Type 0
IsAllocator x file ctx =
    (start now : ParserContext) (pools left : List Mpool)
    → Agrees ctx start
    → x.yyparse file (at_file file start) pools ≡ exited true now left
    → AreSameBlocks pools left × Extends start now

-- Some number of blocks is enough for the file.
abbrev pub Suffices : FileEnv → Str → ParserContext → ℕ → Type 0
Suffices x file ctx k =
    (start now : ParserContext) (pools left : List Mpool)
    → Agrees ctx start
    → k ≤ length pools
    → x.yyparse file (at_file file start) pools ≡ exited true now left
    → mpool_get_error left ≢ mperr_alloc

pub child-true :
    (x : FileEnv) (file : Str) (ctx now : ParserContext) (pools left : List Mpool)
    → child x file ctx pools ≡ exited true now left
    → x.yyparse file ctx pools ≡ exited true now left
unfolding child
child-true x file ctx now pools left h = ground arith

pub length-snapshot : (ms : List Mpool) → length (mpool_snapshot ms) ≡ length ms
unfolding mpool_snapshot
length-snapshot [] = refl
length-snapshot (m ∷ ms) = ap suc (length-snapshot ms)

==_ne : (a : ℕ) → a ≢ 0 → (a == 0) ≡ false
==_ne a h = ground arith

-- The address of a block that mmap(2) gives.
abbrev pub IsBlock : Option ℕ → Type 0
IsBlock none = ⊥
IsBlock (some a) = a ≢ 0

pub expand_lem :
    (a : ℕ) (pools : List Mpool)
    → a ≢ 0
    → mpool_expand (some a) pools ≡ Expanded.expanded (pools ++ new_block a ∷ [])
unfolding mpool_expand
expand_lem a pools nz = rw (==_ne a nz) refl

-- New blocks at these addresses, as a child finds them.
abbrev pub blocks : List ℕ → List Mpool
blocks addrs = mpool_snapshot (map new_block addrs)

pub blocks-append :
    (addrs : List ℕ) (a : ℕ)
    → blocks (addrs ++ a ∷ []) ≡ blocks addrs ++ mpool_snapshot (new_block a ∷ [])
unfolding mpool_snapshot
blocks-append [] a = refl
blocks-append (b ∷ addrs) a = cc (blocks-append addrs a)

pub length-blocks : (addrs : List ℕ) → length (blocks addrs) ≡ length addrs
unfolding mpool_snapshot
length-blocks [] = refl
length-blocks (a ∷ addrs) = ap suc (length-blocks addrs)

-- One more address is used.
pub given-append :
    (addrs : List ℕ) (a : ℕ) (answers : List (Option ℕ))
    → map some (addrs ++ a ∷ []) ++ answers ≡ map some addrs ++ some a ∷ answers
given-append [] a answers = refl
given-append (b ∷ addrs) a answers = cc (given-append addrs a answers)
