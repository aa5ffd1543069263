-- ===== src/Parser/Globals.antt =====
-- The global sections of the configuration file: gl_conf_set_params and apply_global_vars of
-- parser.c.
use bmd.Prelude.{Option, none, some, List, [], ◌∷◌, Str, codes, str_eq, if◌then◌else◌}
use bmd.Conf.Compare.{to_int}
use bmd.Conf.Vars.{Variables, set_var}
use bmd.Global.{GlobalConf, default_nmdm_offset}
use bmd.Parser.Numbers.{strtol, is_end}
use bmd.Parser.Tokens.{TokenKind, Text, token_to_string}
use bmd.Parser.Sections.{CfValue, CfParam}

pub data GlobalKey : Type 0 where
  unix_domain_socket_mode cmd_sock_path vars_dir nmdm_offset pid_path plugin_dir : GlobalKey

-- The switch on the first byte of the key and the comparisons in its cases.
unfoldable pub global_key : Str → Option GlobalKey
unfolding str_eq
global_key key =
    if str_eq key (codes "cmd_socket_mode")
    then some GlobalKey.unix_domain_socket_mode
    else if str_eq key (codes "cmd_socket_path")
    then some GlobalKey.cmd_sock_path
    else if str_eq key (codes "vars_directory")
    then some GlobalKey.vars_dir
    else if str_eq key (codes "nmdm_offset")
    then some GlobalKey.nmdm_offset
    else if str_eq key (codes "pid_file")
    then some GlobalKey.pid_path
    else if str_eq key (codes "plugin_directory")
    then some GlobalKey.plugin_dir
    else none

-- What one call keeps: `nmdm_offset_s` is its local variable.
pub record GlobalState : Type 0 where
  pub gc : GlobalConf
  pub vars : Variables
  pub nmdm_offset_s : Option Str

-- `if (*t == NULL) *t = val`
pub first_value : Option Str → Str → Option Str
first_value none val = some val
first_value (some old) val = some old

unfoldable pub set_global : GlobalKey → GlobalState → Str → GlobalState
unfolding first_value
set_global GlobalKey.unix_domain_socket_mode s val = record s {
  gc = record s.gc { unix_domain_socket_mode = first_value s.gc.unix_domain_socket_mode val };
}
set_global GlobalKey.cmd_sock_path s val = record s {
  gc = record s.gc { cmd_sock_path = first_value s.gc.cmd_sock_path val };
}
set_global GlobalKey.vars_dir s val = record s {
  gc = record s.gc { vars_dir = first_value s.gc.vars_dir val };
}
set_global GlobalKey.nmdm_offset s val = record s {
  nmdm_offset_s = first_value s.nmdm_offset_s val;
}
set_global GlobalKey.pid_path s val = record s {
  gc = record s.gc { pid_path = first_value s.gc.pid_path val };
}
set_global GlobalKey.plugin_dir s val = record s {
  gc = record s.gc { plugin_dir = first_value s.gc.plugin_dir val };
}

-- `none` is a fault, which ends the process.
pub set_global_text : (GlobalState → Str → GlobalState) → GlobalState → Text → Option GlobalState
set_global_text store s (Text.text val) = some (store s val)
set_global_text store s Text.failed = some s
set_global_text store s Text.fault = none

pub set_globals : GlobalKey → List CfValue → GlobalState → Option GlobalState
unfolding set_global_text set_global token_to_string
set_globals k [] s = some s
set_globals k (v ∷ vs) s =
    elim (set_global_text (set_global k) s (token_to_string (some s.vars) v.tokens)) [
      | none ↦ none
      | some s' ↦ set_globals k vs s'
    ]

store_global_var : Str → GlobalState → Str → GlobalState
unfolding set_var
store_global_var key s val = record s { vars = (set_var s.vars key val).1 }

pub set_global_var : Str → List CfValue → GlobalState → Option GlobalState
unfolding set_global_text store_global_var token_to_string
set_global_var key [] s = none
set_global_var key (v ∷ vs) s =
    set_global_text (store_global_var key) s (token_to_string (some s.vars) v.tokens)

pub set_if_known : Option GlobalKey → List CfValue → GlobalState → Option GlobalState
unfolding set_globals
set_if_known none vals s = some s
set_if_known (some k) vals s = set_globals k vals s

unfoldable pub set_global_param : CfParam → GlobalState → TokenKind → Option GlobalState
unfolding set_global_var set_if_known global_key
set_global_param p s (TokenKind.var key) = set_global_var key p.vals s
set_global_param p s (TokenKind.str key) = set_if_known (global_key key) p.vals s
set_global_param p s _ = none

pub set_global_params : List CfParam → GlobalState → Option GlobalState
unfolding set_global_param
set_global_params [] s = some s
set_global_params (p ∷ ps) s = elim (set_global_param p s p.key.kind) [
  | none ↦ none
  | some s' ↦ set_global_params ps s'
]

-- The number that is stored in the `int`, or the default where something stands behind it.
pub set_offset : GlobalConf → Option Str → GlobalConf
unfolding strtol to_int
set_offset gc none = gc
set_offset gc (some s) =
    let (n, p) = strtol 0 s in
    record gc { nmdm_offset = if is_end p then to_int n else default_nmdm_offset }

-- `none` is a fault; otherwise the function returns 0.
unfoldable pub gl_conf_set_params :
    GlobalConf → Variables → List CfParam → Option (GlobalConf × Variables)
unfolding set_global_params set_offset
gl_conf_set_params gc vars params =
    elim (set_global_params params (record { gc = gc; vars = vars; nmdm_offset_s = none })) [
      | none ↦ none
      | some s ↦ some (set_offset s.gc s.nmdm_offset_s, s.vars)
    ]

-- The variables of the daemon take those of a global section while its file is parsed.
apply_var : CfParam → GlobalState → TokenKind → Option GlobalState
unfolding set_global_var
apply_var p s (TokenKind.var key) = set_global_var key p.vals s
apply_var p s _ = some s

unfoldable pub apply_global_vars : List CfParam → GlobalState → Option GlobalState
unfolding apply_var
apply_global_vars [] s = some s
apply_global_vars (p ∷ ps) s = elim (apply_var p s p.key.kind) [
  | none ↦ none
  | some s' ↦ apply_global_vars ps s'
]
