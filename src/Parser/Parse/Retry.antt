-- ===== src/Parser/Parse/Retry.antt =====
-- The repetition of parse: its result is that of a pool that was large enough from the beginning.
use bmd.Prelude.{
  ℕ, map, suc, ◌+◌, ◌≤◌, ◌≡◌, refl, sym, ap, ◌∙◌, false, Option, none, some, List, [], ◌∷◌, ◌++◌,
  Str, length, length-append, All, arith, ◌≢◌, ◌⊎◌, inl, inr,
}
use mathlib.Core.List.{append-nil, append_assoc}
use bmd.Parser.Mpool.{Mpool, mpool_snapshot, mpool_rollback, new_block}
use bmd.Parser.Files.{ParserContext, FileEnv, exited, child}
use bmd.Parser.Parse.{
  Attempt, done, again, gives_up, crashes, Parsed, parsed, failed, fault, out_of_memory, at_file,
  attempt, parse,
}
use bmd.Parser.Parse.Lists.{IsSeeded, Agrees, Agrees-refl, Agrees-trans}
use bmd.Parser.Parse.Round.{IsRefused, View, attempt-View}
use bmd.Parser.Parse.Memory.{
  blocks, blocks-append, length-blocks, given-append, AreSameBlocks, snapshot-rollback,
  snapshot-append, IsAllocator, Suffices, child-true, length-snapshot, IsBlock, expand_lem,
}

-- The file is parsed from a context that agrees with `ctx`, in the memory of the beginning with new
-- blocks at the addresses of the answers that are used; or no child can be started, or the child is
-- refused there.
abbrev pub IsRetried :
    FileEnv → Str → ParserContext → List Mpool → List (Option ℕ) → Parsed → Type 0
IsRetried x file ctx base answers (parsed c p rest) =
    (start : ParserContext) × (addrs : List ℕ) × Agrees ctx start
    × (child x file (at_file file start) (base ++ blocks addrs) ≡ exited false c p)
    × (map some addrs ++ rest ≡ answers)
IsRetried x file ctx base answers failed =
    (x.fork ≡ false)
    ⊎ ((start : ParserContext) × (addrs : List ℕ) × (rest : List (Option ℕ)) × Agrees ctx start
        × IsRefused (child x file (at_file file start) (base ++ blocks addrs))
        × (map some addrs ++ rest ≡ answers))
IsRetried x file ctx base answers fault = ⊥
IsRetried x file ctx base answers out_of_memory = ⊥

module _ (x : FileEnv) (file : Str) (ctx : ParserContext) (seeded : IsSeeded ctx)
    (allocator : IsAllocator x file ctx) (base : List Mpool) (k : ℕ)
    (enough : Suffices x file ctx k) where
  -- A round in the memory of the beginning with a block for each address behind it.
  abbrev IsRound : ParserContext → List Mpool → List ℕ → ℕ → Type 0
  IsRound start pools addrs n =
      Agrees ctx start
      × (mpool_snapshot pools ≡ base ++ blocks addrs)
      × (k ≤ length base + length addrs + n)

  refused-IsRetried :
      (start : ParserContext) (pools : List Mpool) (addrs : List ℕ) (answers : List (Option ℕ))
      → View x file start pools gives_up
      → IsRound start pools addrs (length answers)
      → IsRetried x file ctx base (map some addrs ++ answers) failed
  refused-IsRetried start pools addrs answers (inl alone) (agree, i, l) = inl alone
  refused-IsRetried start pools addrs answers (inr refused) (agree, i, l) =
      inr (start, addrs, answers, agree, rw i at refused, refl)

  last-IsRetried :
      (start : ParserContext) (pools : List Mpool) (addrs : List ℕ) (r : Attempt)
      → attempt x file start pools ≡ r
      → View x file start pools r
      → IsRound start pools addrs 0
      → IsRetried x file ctx base (map some addrs ++ []) (parse x file start pools [])
  unfolding parse
  last-IsRetried start pools addrs (done c p) e v (agree, i, l) =
      rw (e, parse) (start, addrs, agree, rw i at v, refl)
  last-IsRetried start pools addrs (again c q) e (left, _, _, _, now, run, short) (agree, i, l) =
      absurd (
        enough start now (mpool_snapshot pools) left agree
          (omega (arith, ap length i, length-append {0} base (blocks addrs), length-blocks addrs))
          (child-true x file _ now _ left run) short)
  last-IsRetried start pools addrs gives_up e v round =
      rw (e, parse) (refused-IsRetried start pools addrs [] v round)
  last-IsRetried start pools addrs crashes e v round = elim v [ ]

  again-IsRound :
      (start c : ParserContext) (pools left : List Mpool) (addrs : List ℕ) (addr n : ℕ)
      → Agrees start c
      → AreSameBlocks (mpool_snapshot pools) left
      → IsRound start pools addrs (suc n)
      → IsRound c (mpool_rollback left ++ new_block addr ∷ []) (addrs ++ addr ∷ []) n
  again-IsRound start c pools left addrs addr n next same (agree, i, l) =
      let new : List Mpool = mpool_snapshot (new_block addr ∷ []) in
      (
        Agrees-trans ctx start c agree next,
        snapshot-append (mpool_rollback left) (new_block addr ∷ [])
            ∙ ap (λ t. t ++ new) (snapshot-rollback pools left same ∙ i)
            ∙ append_assoc base (blocks addrs) new
            ∙ ap (λ t. base ++ t) (sym (blocks-append addrs addr)),
        omega (arith, l, length-append {0} addrs (addr ∷ [])),
      )

  round-IsRetried :
      (start : ParserContext) (pools : List Mpool) (addrs : List ℕ) (addr : ℕ)
      (answers : List (Option ℕ)) (r : Attempt)
      → attempt x file start pools ≡ r
      → View x file start pools r
      → addr ≢ 0
      → IsRound start pools addrs (suc (length answers))
      → ((start' : ParserContext) (pools' : List Mpool) (addrs' : List ℕ)
          → IsRound start' pools' addrs' (length answers)
          → IsRetried x file ctx base
              (map some addrs' ++ answers)
              (parse x file start' pools' answers))
      → IsRetried x file ctx base
          (map some addrs ++ some addr ∷ answers)
          (parse x file start pools (some addr ∷ answers))
  unfolding parse
  round-IsRetried start pools addrs addr answers (done c p) e v nz (agree, i, l) next =
      rw (e, parse) (start, addrs, agree, rw i at v, refl)
  round-IsRetried start pools addrs addr answers gives_up e v nz round next =
      rw (e, parse) (refused-IsRetried start pools addrs (some addr ∷ answers) v round)
  round-IsRetried start pools addrs addr answers crashes e v nz round next = elim v [ ]
  round-IsRetried start pools addrs addr answers (again c q) e
        (left, agree, same, back, now, run, short) nz round next =
      let round' = again-IsRound start c pools left addrs addr (length answers) agree same round in
      let result =
        next c (mpool_rollback left ++ new_block addr ∷ []) (addrs ++ addr ∷ []) round' in
      let shown : attempt x file start pools ≡ again c (mpool_rollback left) = e ∙ cc back in
      rw (shown, parse)
        (rw (expand_lem addr (mpool_rollback left) nz)
          (rw (given-append addrs addr answers) at result))

  rounds-IsRetried :
      (answers : List (Option ℕ)) (start : ParserContext) (pools : List Mpool) (addrs : List ℕ)
      → All IsBlock answers
      → IsRound start pools addrs (length answers)
      → IsRetried x file ctx base (map some addrs ++ answers) (parse x file start pools answers)
  rounds-IsRetried [] start pools addrs blocks' round =
      last-IsRetried start pools addrs _ refl
        (attempt-View x file ctx seeded allocator start pools round.0) round
  rounds-IsRetried (none ∷ answers) start pools addrs (b, bs) round = elim b [ ]
  rounds-IsRetried (some addr ∷ answers) start pools addrs (b, bs) round =
      round-IsRetried start pools addrs addr answers _ refl
        (attempt-View x file ctx seeded allocator start pools round.0) b round
        (λ start' pools' addrs' next. rounds-IsRetried answers start' pools' addrs' bs next)

-- Where a file was read before with a section of each kind; the generated parser, from any context
-- that differs from the given one at most in its counts of duplicates, takes memory in the pool,
-- enters sections and files behind the others, and counts duplicates; and some number of blocks is
-- enough for the file: the parser ends with as many answers of mmap(2) as blocks are missing. If it
-- returns 0, the file is parsed as by one child from such a context, in the memory of the beginning
-- with new blocks at the addresses of the answers that were used; the others are left. If it returns
-- -1, no child can be started, or the child in such a memory ends by a signal or with another error
-- than that of a pool that is too small.
pub parse-IsRetried :
    (x : FileEnv) (file : Str) (ctx : ParserContext) (pools : List Mpool)
    (answers : List (Option ℕ)) (k : ℕ)
    → IsSeeded ctx
    → IsAllocator x file ctx
    → Suffices x file ctx k
    → All IsBlock answers
    → k ≤ length pools + length answers
    → IsRetried x file ctx (mpool_snapshot pools) answers (parse x file ctx pools answers)
unfolding mpool_snapshot
parse-IsRetried x file ctx pools answers k seeded allocator enough given l =
    rounds-IsRetried x file ctx seeded allocator (mpool_snapshot pools) k enough answers ctx pools
      [] given
      (
        Agrees-refl ctx,
        sym (append-nil (mpool_snapshot pools)),
        omega (arith, length-snapshot pools),
      )
