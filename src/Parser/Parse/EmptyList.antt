-- ===== src/Parser/Parse/EmptyList.antt =====
-- The repetition of parse where a list of the context is empty.
use bmd.Prelude.{◌≡◌, ◌⊎◌, inl, inr, refl, true, none, [], List, ◌∷◌, Option, Str, ℕ, some}
use bmd.Parser.Mpool.{Mpool, mperr_alloc, mpool_snapshot, mpool_get_error}
use bmd.Parser.Files.{ParserContext, FileEnv, exited, child}
use bmd.Parser.Parse.{
  crashes, fault, restore, end_up, with_list, at_file, undo, on_error, after_child, attempt, parse,
}

with_list_none {ℓ κ} :
    {A : Type ℓ} {B : Type κ} (o : Option A) → with_list {B = B} o (λ a. none) ≡ none
unfolding with_list
with_list_none none = refl
with_list_none (some a) = refl

-- Whatever the child left, nothing is restored to a context without templates or without machines.
restore_none :
    (old now : ParserContext) → (old.cftemplates ≡ []) ⊎ (old.cfvms ≡ []) → restore old now ≡ none
unfolding restore
restore_none old now (inl e) =
    let n : end_up old.cftemplates now.cftemplates ≡ none = rw e (unfold end_up in refl) in
    simp (n, with_list_none)
restore_none old now (inr e) =
    let n : end_up old.cfvms now.cfvms ≡ none = rw e (unfold end_up in refl) in
    simp (n, with_list_none)

crashes_attempt :
    (x : FileEnv) (file : Str) (ctx now : ParserContext) (pools left : List Mpool)
    → (ctx.cftemplates ≡ []) ⊎ (ctx.cfvms ≡ [])
    → x.fork ≡ true
    → child x file (at_file file ctx) (mpool_snapshot pools) ≡ exited true now left
    → mpool_get_error left ≡ mperr_alloc
    → attempt x file ctx pools ≡ crashes
unfolding attempt after_child on_error undo
crashes_attempt x file ctx now pools left empty forks run short =
    rw forks (rw run (rw short (rw (restore_none ctx now empty) refl)))

-- Where a file is parsed before any template or any machine was read, and the child finds the pool
-- too small, the parser does not repeat but writes through a NULL pointer, whatever memory there is.
pub parse_fault :
    (x : FileEnv) (file : Str) (ctx now : ParserContext) (pools left : List Mpool)
    (answers : List (Option ℕ))
    → (ctx.cftemplates ≡ []) ⊎ (ctx.cfvms ≡ [])
    → x.fork ≡ true
    → child x file (at_file file ctx) (mpool_snapshot pools) ≡ exited true now left
    → mpool_get_error left ≡ mperr_alloc
    → parse x file ctx pools answers ≡ fault
unfolding parse
parse_fault x file ctx now pools left [] empty forks run short =
    rw (crashes_attempt x file ctx now pools left empty forks run short, parse)
parse_fault x file ctx now pools left (a ∷ answers) empty forks run short =
    rw (crashes_attempt x file ctx now pools left empty forks run short, parse)
