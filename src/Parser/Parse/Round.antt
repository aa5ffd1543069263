-- ===== src/Parser/Parse/Round.antt =====
-- One round of parse: what it leaves of the context and of the memory.
use bmd.Prelude.{
  ◌≡◌, refl, sym, ◌∙◌, true, false, List, Str, Bool, if◌then◌else◌, ◌≢◌, ◌⊎◌, inl, inr,
}
use bmd.Parser.Mpool.{
  Mpool, MpoolError, mperr_none, mperr_fatal, mperr_alloc, mpool_snapshot, mpool_rollback,
  mpool_get_error,
}
use bmd.Parser.Files.{ParserContext, FileEnv, Child, signalled, exited, child}
use bmd.Parser.Parse.{
  Attempt, done, again, gives_up, crashes, at_file, undo, on_error, after_child, attempt,
}
use bmd.Parser.Parse.Lists.{IsSeeded, Agrees, Agrees-IsSeeded, restore-Extends}
use bmd.Parser.Parse.Memory.{AreSameBlocks, IsAllocator, child-true}

-- A child that a signal ended, or that failed for another reason than the size of the pool.
abbrev pub IsRefused : Child → Type 0
IsRefused (signalled left) = Unit {0}
IsRefused (exited false now left) = ⊥
IsRefused (exited true now left) = mpool_get_error left ≢ mperr_alloc

module _ (x : FileEnv) (file : Str) where
  -- How a round from the context `start` ended.
  abbrev pub View : ParserContext → List Mpool → Attempt → Type 0
  View start pools (done c p) =
      child x file (at_file file start) (mpool_snapshot pools) ≡ exited false c p
  View start pools (again c q) =
      (left : List Mpool) × Agrees start c
      × AreSameBlocks (mpool_snapshot pools) left
      × (q ≡ mpool_rollback left)
      × (now : ParserContext) × (child x file (at_file file start) (mpool_snapshot pools)
          ≡ exited true now left)
      × (mpool_get_error left ≡ mperr_alloc)
  View start pools gives_up =
      (x.fork ≡ false) ⊎ IsRefused (child x file (at_file file start) (mpool_snapshot pools))
  View start pools crashes = ⊥

  module _ (ctx : ParserContext) (seeded : IsSeeded ctx) (allocator : IsAllocator x file ctx) where
    other_error :
        (left : List Mpool) (m : MpoolError)
        → mpool_get_error left ≡ m
        → m ≢ mperr_alloc
        → mpool_get_error left ≢ mperr_alloc
    other_error left m e other short = other (sym e ∙ short)

    on_error-View :
        (start now : ParserContext) (pools left : List Mpool) (m : MpoolError)
        → Agrees ctx start
        → child x file (at_file file start) (mpool_snapshot pools) ≡ exited true now left
        → mpool_get_error left ≡ m
        → View start pools (on_error start now left m)
    unfolding on_error undo
    on_error-View start now pools left MpoolError.mperr_none agree run e =
        inr (rw run (other_error left mperr_none e (λ t. cc t)))
    on_error-View start now pools left MpoolError.mperr_fatal agree run e =
        inr (rw run (other_error left mperr_fatal e (λ t. cc t)))
    on_error-View start now pools left MpoolError.mperr_alloc agree run e =
        let (same, more) =
          allocator start now (mpool_snapshot pools) left agree
            (child-true x file _ now _ left run) in
        let (c, back, agree') =
          restore-Extends start now (Agrees-IsSeeded ctx start agree seeded) more in
        rw back (left, agree', same, refl, now, run, e)

    after_child-View :
        (start : ParserContext) (pools : List Mpool) (c : Child)
        → Agrees ctx start
        → child x file (at_file file start) (mpool_snapshot pools) ≡ c
        → View start pools (after_child start c)
    unfolding after_child
    after_child-View start pools (signalled left) agree run = inr (rw run tt)
    after_child-View start pools (exited false now left) agree run = run
    after_child-View start pools (exited true now left) agree run =
        on_error-View start now pools left (mpool_get_error left) agree run refl

    fork-View :
        (start : ParserContext) (pools : List Mpool) (forks : Bool)
        → Agrees ctx start
        → x.fork ≡ forks
        → View start pools (
            if forks
            then after_child start (child x file (at_file file start) (mpool_snapshot pools))
            else gives_up)
    fork-View start pools true agree e = after_child-View start pools _ agree refl
    fork-View start pools false agree e = inl e

    pub attempt-View :
        (start : ParserContext) (pools : List Mpool)
        → Agrees ctx start
        → View start pools (attempt x file start pools)
    unfolding attempt
    attempt-View start pools agree = fork-View start pools x.fork agree refl
