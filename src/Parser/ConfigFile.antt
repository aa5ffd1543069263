-- ===== src/Parser/ConfigFile.antt =====
-- load_config_file of parser.c as a whole.
pub mod Missing
use bmd.Prelude.{
  ℕ, zero, suc, ◌+◌, Bool, true, false, Option, none, some, List, [], ◌∷◌, Str, codes, get_elem?,
  if◌then◌else◌,
}
use bmd.Conf.Vars.{VarTree, Variables, set_var0}
use bmd.Conf.Create.Ids.{IdList}
use bmd.Daemon.{VmConfEntry}
use bmd.Global.{GlobalConf, no_global_conf, merge_global_conf}
use bmd.Parser.Mpool.{Mpool, Expanded, mpool_expand, mpool_alloc}
use bmd.Parser.Sections.Plugins.{PluginEntry, create_plugin_data}
use bmd.Parser.Files.{ParserContext, FileEnv, push_file, check_duplicate}
use bmd.Parser.Parse.{Parsed, parse}
use bmd.Parser.Load.{LoadEnv, load_globals, Vms, load_vms}

-- The result of the whole: the new settings, the variables, the identifiers and the
-- configurations; -1; the end of the process; or a bound of the model that is reached.
pub data Loaded : Type 0 where
  loaded : GlobalConf → VarTree → IdList → List VmConfEntry → Loaded
  failed fault out_of_memory out_of_fuel : Loaded

-- The loop over the list of files, which grows while it is followed: the next one is that at `i`.
pub data FilesRead : Type 0 where
  files_read : ParserContext → FilesRead
  failed fault out_of_memory out_of_fuel : FilesRead

unfoldable pub parse_files :
    ℕ → FileEnv → ℕ → ParserContext → List Mpool → List (Option ℕ) → FilesRead
unfolding parse
parse_files zero x i ctx pools answers = FilesRead.out_of_fuel
parse_files (suc fuel) x i ctx pools answers = elim (get_elem? ctx.cffiles i) [
  | none ↦ files_read ctx
  | some file ↦ elim (parse x file ctx pools answers) [
    | Parsed.parsed c p rest ↦ parse_files fuel x (i + 1) c p rest
    | Parsed.failed ↦ FilesRead.failed
    | Parsed.fault ↦ FilesRead.fault
    | Parsed.out_of_memory ↦ FilesRead.out_of_memory
  ]
]

-- The directory of the plugins: that of the files, or the one that was set before.
pub plugin_dir : GlobalConf → GlobalConf → Option Str
plugin_dir global_conf gl_conf = elim global_conf.plugin_dir [
  | none ↦ gl_conf.plugin_dir
  | some d ↦ some d
]

-- What is set by the caller: `update_gl_conf`, and whether it gives a list.
pub record Request : Type 0 where
  pub update : Bool
  pub wanted : Bool

unfoldable pub settings : Request → GlobalConf → GlobalConf → GlobalConf
unfolding merge_global_conf
settings r global_conf gl_conf = if r.update then merge_global_conf global_conf gl_conf else gl_conf

pub with_vms : GlobalConf → VarTree → Vms → Loaded
with_vms gl gv (Vms.vms ids list) = loaded gl gv ids list
with_vms gl gv Vms.fault = Loaded.fault
with_vms gl gv Vms.out_of_fuel = Loaded.out_of_fuel

abbrev pub tree : Variables → VarTree
tree vars = elim vars.global [ none ↦ [] | some t ↦ t ]

-- From the global sections on.
pub load_sections :
    LoadEnv
    → ℕ
    → Request
    → GlobalConf
    → IdList
    → ParserContext
    → Option (GlobalConf × Variables)
    → Loaded
unfolding plugin_dir load_vms with_vms create_plugin_data settings
load_sections x fuel r gl_conf ids ctx none = Loaded.fault
load_sections x fuel r gl_conf ids ctx (some (gc, vars)) =
    if r.wanted
    then with_vms (settings r gc gl_conf) (tree vars) (
        load_vms x fuel (tree vars) (create_plugin_data (x.plugins (plugin_dir gc gl_conf)))
          ctx.cftemplates ctx.cfvms ids [])
    else loaded (settings r gc gl_conf) (tree vars) ids []

abbrev pub first_vars : Variables
unfolding set_var0
first_vars = record {
  local = none;
  global = some (set_var0 [] (codes "LOCALBASE") (codes "/usr/local"));
  args = none;
}

-- From the parsed files on.
pub load_files : LoadEnv → ℕ → Request → GlobalConf → IdList → FilesRead → Loaded
unfolding check_duplicate load_globals load_sections
load_files x fuel r gl_conf ids (files_read ctx) =
    if check_duplicate ctx.cftemplates
    then load_sections x fuel r gl_conf ids ctx
        (load_globals no_global_conf first_vars ctx.cfglobals)
    else Loaded.failed
load_files x fuel r gl_conf ids FilesRead.failed = Loaded.failed
load_files x fuel r gl_conf ids FilesRead.fault = Loaded.fault
load_files x fuel r gl_conf ids FilesRead.out_of_memory = Loaded.out_of_memory
load_files x fuel r gl_conf ids FilesRead.out_of_fuel = Loaded.out_of_fuel

abbrev pub empty_context : ParserContext
empty_context = record {
  cfglobals = [];
  cftemplates = [];
  cfvms = [];
  cffiles = [];
  cur_file = none;
}

pub after_push :
    LoadEnv
    → ℕ
    → ℕ
    → Request
    → GlobalConf
    → IdList
    → List (Option ℕ)
    → Bool × ParserContext × List Mpool
    → Loaded
unfolding load_files parse_files
after_push x files fuel r gl_conf ids answers (false, ctx, pools) = Loaded.failed
after_push x files fuel r gl_conf ids answers (true, ctx, pools) =
    load_files x fuel r gl_conf ids (parse_files files x.files 0 ctx pools answers)

-- sizeof(struct parser_context), twice in a new block: there is room.
pub with_pool :
    LoadEnv → ℕ → ℕ → Request → Str → GlobalConf → IdList → List (Option ℕ) → Expanded → Loaded
unfolding after_push push_file mpool_alloc
with_pool x files fuel r config_file gl_conf ids answers Expanded.fault = Loaded.fault
with_pool x files fuel r config_file gl_conf ids answers Expanded.refused = Loaded.failed
with_pool x files fuel r config_file gl_conf ids answers (Expanded.expanded pools) =
    after_push x files fuel r gl_conf ids answers
      (push_file x.files config_file empty_context (mpool_alloc 72 (mpool_alloc 72 pools).1).1)

-- `files` bounds the number of files and `fuel` the depth of templates. The first answer of mmap(2)
-- is for mpool_init.
unfoldable pub load_config_file :
    LoadEnv → ℕ → ℕ → Request → Str → GlobalConf → IdList → List (Option ℕ) → Loaded
unfolding with_pool mpool_expand
load_config_file x files fuel r config_file gl_conf ids [] = Loaded.out_of_memory
load_config_file x files fuel r config_file gl_conf ids (a ∷ answers) =
    with_pool x files fuel r config_file gl_conf ids answers (mpool_expand a [])
