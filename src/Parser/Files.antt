-- ===== src/Parser/Files.antt =====
-- The files of the configuration: push_file, glob_path and parse of parser.c. A file is parsed by a
-- child process, whose privileges are those of the file's owner, in memory that both processes
-- share; it is parsed again in a larger pool if the pool was too small.
use bmd.Prelude.{
  ℕ, ◌+◌, ◌==◌, Bool, true, false, Option, none, some, List, [], ◌∷◌, ◌++◌, Str, codes, str_eq,
  is_some, strip_prefix, length, if◌then◌else◌,
}
use bmd.Parser.Mpool.{Mpool, mpool_alloc}
use bmd.Parser.Sections.{CfSection}

-- `struct parser_context`. A file is its path; the line number of `struct cffile` is not used.
pub record ParserContext : Type 0 where
  pub cfglobals : List CfSection
  pub cftemplates : List CfSection
  pub cfvms : List CfSection
  pub cffiles : List Str
  pub cur_file : Option Str

pub data FileKind : Type 0 where
  missing regular other : FileKind

-- How the child's parser ends: by a signal, or with the memory that it leaves and whether yyparse
-- or yynerrs is not 0.
pub data Child : Type 0 where
  signalled : List Mpool → Child
  exited : Bool → ParserContext → List Mpool → Child

-- What the system answers. `yyparse` is the parser that yacc generates; it runs in the child, with
-- the ids of the file's owner.
pub record FileEnv : Type 0 where
  pub realpath : Str → Option Str
  pub readable : Str → Bool
  pub kind : Str → FileKind
  pub opens : Str → Bool
  pub fork : Bool
  pub yyparse : Str → ParserContext → List Mpool → Child

-- sizeof(struct cffile)
abbrev pub cffile_size : ℕ
cffile_size = 24

unfoldable pub has_file : List Str → Str → Bool
unfolding str_eq
has_file [] path = false
has_file (f ∷ fs) path = let rest = has_file fs path in if str_eq f path then true else rest

-- The path and the `struct cffile` are allocated, both of them in any case.
pub enter_file :
    Str → ParserContext → Option ℕ → Option ℕ × List Mpool → Bool × ParserContext × List Mpool
enter_file path ctx (some a) (some b, pools) =
    (true, record ctx { cffiles = ctx.cffiles ++ path ∷ [] }, pools)
enter_file path ctx _ (b, pools) = (false, ctx, pools)

pub alloc_file : Str → ParserContext → Option ℕ × List Mpool → Bool × ParserContext × List Mpool
unfolding mpool_alloc enter_file
alloc_file path ctx (a, pools) = enter_file path ctx a (mpool_alloc cffile_size pools)

pub push_path : FileEnv → Str → ParserContext → List Mpool → Bool × ParserContext × List Mpool
unfolding strip_prefix has_file alloc_file mpool_alloc
push_path x path ctx pools =
    if is_some (strip_prefix (codes "/dev") path)
    then (false, ctx, pools)
    else if x.readable path
    then (if has_file ctx.cffiles path
        then (false, ctx, pools)
        else alloc_file path ctx (mpool_alloc (length path + 1) pools))
    else (false, ctx, pools)

push_known : FileEnv → Option Str → ParserContext → List Mpool → Bool × ParserContext × List Mpool
unfolding push_path
push_known x none ctx pools = (true, ctx, pools)
push_known x (some path) ctx pools = push_path x path ctx pools

-- `false` is -1. A file that does not exist is passed over.
unfoldable pub push_file :
    FileEnv → Str → ParserContext → List Mpool → Bool × ParserContext × List Mpool
unfolding push_known
push_file x fn ctx pools = push_known x (x.realpath fn) ctx pools

-- The loop of glob_path over the files that glob(3) finds.
unfoldable pub push_files :
    FileEnv → List Str → ParserContext → List Mpool → ParserContext × List Mpool
unfolding push_file
push_files x [] ctx pools = (ctx, pools)
push_files x (f ∷ fs) ctx pools =
    let (rc, ctx', pools') = push_file x f ctx pools in push_files x fs ctx' pools'

unfoldable pub clear_applied : List CfSection → List CfSection
clear_applied [] = []
clear_applied (t ∷ ts) = record t { applied = 0 } ∷ clear_applied ts

-- `true` is 0.
unfoldable pub check_duplicate : List CfSection → Bool
check_duplicate [] = true
check_duplicate (t ∷ ts) = if t.duplicate == 0 then check_duplicate ts else false

-- The child's side of parse. A file that cannot be parsed counts as an empty one.
unfoldable pub child : FileEnv → Str → ParserContext → List Mpool → Child
child x file ctx pools = elim (x.kind file) [
  | missing ↦ exited false ctx pools
  | other ↦ exited false ctx pools
  | regular ↦ if x.opens file then x.yyparse file ctx pools else exited false ctx pools
]
