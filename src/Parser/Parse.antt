-- ===== src/Parser/Parse.antt =====
-- parse of parser.c: one file of the configuration, parsed again as long as memory is short; and
-- glob_path, with which a file includes others.
pub mod Lists
pub mod Memory
pub mod Round
pub mod Retry
pub mod EmptyList
use bmd.Prelude.{
  ℕ, suc, length, take, Bool, true, false, Option, none, some, List, [], ◌∷◌, ◌++◌, Str, codes,
  is_some, strip_prefix, if◌then◌else◌,
}
use bmd.Conf.Vars.{VarTree}
use bmd.Parser.Mpool.{
  Mpool, MpoolError, Expanded, mpool_expand, mpool_snapshot, mpool_rollback, mpool_get_error,
}
use bmd.Parser.Tokens.{CfToken, Text, token_to_string}
use bmd.Parser.Files.{ParserContext, FileEnv, Child, signalled, exited, child, push_files}

-- Success, the return of -1, a write through a NULL pointer, or the wait for more memory.
pub data Parsed : Type 0 where
  parsed : ParserContext → List Mpool → List (Option ℕ) → Parsed
  failed fault out_of_memory : Parsed

-- `*pctxt = *pctxt_snapshot` and END_UP: each list has again the elements that it had, as the child
-- left them. END_UP writes through NULL if a list is empty.
unfoldable pub end_up {ℓ} : {A : Type ℓ} → List A → List A → Option (List A)
end_up [] now = none
end_up (x ∷ old) now = some (take (suc (length old)) now)

unfoldable pub with_list {ℓ κ} : {A : Type ℓ} {B : Type κ} → Option A → (A → Option B) → Option B
with_list none f = none
with_list (some a) f = f a

unfoldable pub restore : ParserContext → ParserContext → Option ParserContext
unfolding end_up with_list
restore old now = with_list (end_up old.cfglobals now.cfglobals) (λ globals.
    with_list (end_up old.cftemplates now.cftemplates) (λ templates.
      with_list (end_up old.cfvms now.cfvms) (λ vms.
        with_list (end_up old.cffiles now.cffiles) (λ files. some (record old {
          cfglobals = globals;
          cftemplates = templates;
          cfvms = vms;
          cffiles = files;
        })))))

-- How one round ends: with the file parsed, with -1, with a write through NULL, or with the memory
-- as it was before.
pub data Attempt : Type 0 where
  done again : ParserContext → List Mpool → Attempt
  gives_up crashes : Attempt

abbrev pub at_file : Str → ParserContext → ParserContext
at_file file ctx = record ctx { cur_file = some file }

pub undo : List Mpool → Option ParserContext → Attempt
unfolding mpool_rollback
undo pools none = crashes
undo pools (some ctx) = again ctx (mpool_rollback pools)

-- The switch on mpool_get_error.
pub on_error : ParserContext → ParserContext → List Mpool → MpoolError → Attempt
unfolding undo restore
on_error old now pools MpoolError.mperr_none = gives_up
on_error old now pools MpoolError.mperr_fatal = gives_up
on_error old now pools MpoolError.mperr_alloc = undo pools (restore old now)

-- What follows waitpid(2).
unfoldable pub after_child : ParserContext → Child → Attempt
unfolding on_error mpool_get_error
after_child old (signalled pools) = gives_up
after_child old (exited false now pools) = done now pools
after_child old (exited true now pools) = on_error old now pools (mpool_get_error pools)

unfoldable pub attempt : FileEnv → Str → ParserContext → List Mpool → Attempt
unfolding after_child child mpool_snapshot
attempt x file ctx pools =
    if x.fork
    then after_child ctx (child x file (at_file file ctx) (mpool_snapshot pools))
    else gives_up

-- `answers` are the addresses that mmap(2) gives, one for each block that is added.
unfoldable pub parse : FileEnv → Str → ParserContext → List Mpool → List (Option ℕ) → Parsed
unfolding attempt mpool_expand
parse x file ctx pools [] = elim (attempt x file ctx pools) [
  | done c p ↦ parsed c p []
  | again c p ↦ out_of_memory
  | gives_up ↦ failed
  | crashes ↦ fault
]
parse x file ctx pools (a ∷ answers) = elim (attempt x file ctx pools) [
  | done c p ↦ parsed c p (a ∷ answers)
  | again c p ↦ elim (mpool_expand a p) [
    | Expanded.expanded p' ↦ parse x file c p' answers
    | Expanded.refused ↦ failed
    | Expanded.fault ↦ fault
  ]
  | gives_up ↦ failed
  | crashes ↦ fault
]

-- dirname(3) and glob(3); `none` is an error of glob.
pub record GlobEnv : Type 0 where
  pub dirname : Str → Str
  pub glob : Str → Option (List Str)

-- A path that does not begin at the root is taken from the directory of the file.
unfoldable pub absolute : GlobEnv → Str → Str → Str
unfolding strip_prefix
absolute g filename path =
    if is_some (strip_prefix (codes "/") path)
    then path
    else g.dirname filename ++ codes "/" ++ path

push_found : FileEnv → Option (List Str) → ParserContext → List Mpool → ParserContext × List Mpool
unfolding push_files
push_found x none ctx pools = (ctx, pools)
push_found x (some fs) ctx pools = push_files x fs ctx pools

-- `none` is a fault of an expression.
pub glob_text :
    FileEnv
    → GlobEnv
    → Str
    → ParserContext
    → List Mpool
    → Text
    → Option (ParserContext × List Mpool)
unfolding absolute push_found
glob_text x g filename ctx pools (Text.text path) =
    some (push_found x (g.glob (absolute g filename path)) ctx pools)
glob_text x g filename ctx pools Text.failed = some (ctx, pools)
glob_text x g filename ctx pools Text.fault = none

unfoldable pub glob_path :
    FileEnv
    → GlobEnv
    → Option VarTree
    → List CfToken
    → ParserContext
    → List Mpool
    → Option (ParserContext × List Mpool)
unfolding glob_text token_to_string
glob_path x g global_vars [] ctx pools = some (ctx, pools)
glob_path x g global_vars (t ∷ ts) ctx pools =
    glob_text x g t.filename ctx pools
      (token_to_string (some (record { global = global_vars; local = none; args = none })) (t ∷ ts))
