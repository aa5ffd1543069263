-- ===== src/Parser/Sections.antt =====
-- The sections of the configuration file: vm_conf_set_params of parser.c, which assigns the
-- parameters of a virtual machine, and parse_apply, which puts in those of a template.
pub mod Marked
pub mod Plugins
pub mod Applied
use bmd.Prelude.{
  ℕ, zero, suc, ◌+◌, ◌==◌, Bool, true, false, Option, none, some, List, [], ◌∷◌, Str, codes,
  case_eq, str_eq, if◌then◌else◌,
}
use bmd.Conf.{VmConf, QueueTail, null_tail, valid_tail, written_null_tail}
use bmd.Conf.Vars.{VarTree, Variables, set_var, set_var0}
use bmd.Conf.Nv.{NvList}
use bmd.Daemon.{PluginData}
use bmd.Parser.Tokens.{CfToken, TokenKind, Text, token_to_string}
use bmd.Parser.Values.{ParserEnv}
use bmd.Parser.Params.{ParserEntry, parser_list, find_parser, keep_old, clear_with}
use Plugins.{ParseConfig, call_plugin_parser}

-- `struct cfargdef`: an argument of a template with its default.
pub record CfArgDef : Type 0 where
  pub name : Str
  pub tokens : List CfToken

-- `struct cfvalue`; `args` are the arguments behind the name of a template.
pub record CfValue : Type 0 where
  pub tokens : List CfToken
  pub args : List (List CfToken)

-- `struct cfparam`; `append` is the operator `+=`.
pub record CfParam : Type 0 where
  pub key : CfToken
  pub vals : List CfValue
  pub append : Bool

pub record CfSection : Type 0 where
  pub name : Str
  pub params : List CfParam
  pub argdefs : List CfArgDef
  pub applied : ℕ
  pub duplicate : ℕ
  pub owner : ℕ
  pub filename : Str

-- What the functions below change: a `struct vm_conf_entry`, and the templates.
pub record Loading : Type 0 where
  pub conf : VmConf
  pub pl_data : List PluginData
  pub templates : List CfSection

-- `fault` ends the process: a signal of an expression, or a NULL pointer that is read.
pub data Run : Type 0 where
  done : Loading → Run
  fault out_of_fuel : Run

abbrev pub and_run : Run → (Loading → Run) → Run
and_run (done st) f = f st
and_run fault f = fault
and_run out_of_fuel f = out_of_fuel

pub record SectionEnv : Type 0 where
  pub parser : ParserEnv
  pub parse_config : Str → Option ParseConfig

unfoldable pub lookup_template : List CfSection → Str → Option CfSection
lookup_template [] name = none
lookup_template (t ∷ ts) name =
    let rest = lookup_template ts name in if str_eq t.name name then some t else rest

-- `tp->applied++`, where `tp` is the first template of the name.
unfoldable pub mark_applied : List CfSection → Str → List CfSection
mark_applied [] name = []
mark_applied (t ∷ ts) name =
    let rest = mark_applied ts name in
    if str_eq t.name name then record t { applied = t.applied + 1 } ∷ ts else t ∷ rest

-- The value of an argument: the empty text where it has none.
pub arg_text : Text → Option Str
arg_text (Text.text s) = some s
arg_text Text.failed = some []
arg_text Text.fault = none

pub with_arg : Str → VarTree → Option Str → Option VarTree
unfolding set_var0
with_arg name t none = none
with_arg name t (some s) = some (set_var0 t name s)

-- The arguments of a template: those given, and behind them the defaults. `none` is a fault.
unfoldable pub bind_args :
    Variables → List CfArgDef → List (List CfToken) → VarTree → Option VarTree
unfolding arg_text with_arg token_to_string
bind_args vars [] args t = some t
bind_args vars (d ∷ ds) [] t =
    elim (with_arg d.name t (arg_text (token_to_string (some vars) d.tokens))) [
      | none ↦ none
      | some t' ↦ bind_args vars ds [] t'
    ]
bind_args vars (d ∷ ds) (a ∷ as') t =
    elim (with_arg d.name t (arg_text (token_to_string (some vars) a))) [
      | none ↦ none
      | some t' ↦ bind_args vars ds as' t'
    ]

abbrev pub set_args : Option VarTree → Loading → Loading
set_args args st = record st {
  conf = record st.conf { vars = record st.conf.vars { args = args } };
}

-- What parse_apply does with the template's parameters once its arguments are bound.
pub apply_args : (List CfParam → Loading → Run) → CfSection → Loading → Option VarTree → Run
unfolding mark_applied
apply_args set_params tp st none = fault
apply_args set_params tp st (some args) =
    and_run
      (set_params tp.params
        (set_args (some args) (record st { templates = mark_applied st.templates tp.name })))
      (λ st'. done (set_args st.conf.vars.args st'))

pub apply_template :
    (List CfParam → Loading → Run) → List (List CfToken) → Loading → Option CfSection → Run
unfolding bind_args apply_args
apply_template set_params args st none = done st
apply_template set_params args st (some tp) =
    if tp.applied == 0
    then apply_args set_params tp st (bind_args st.conf.vars tp.argdefs args [])
    else done st

unfoldable pub apply_text : (List CfParam → Loading → Run) → CfValue → Loading → Text → Run
unfolding lookup_template apply_template
apply_text set_params vl st (Text.text name) =
    apply_template set_params vl.args st (lookup_template st.templates name)
apply_text set_params vl st Text.failed = done st
apply_text set_params vl st Text.fault = fault

-- `set_params` is vm_conf_set_params, which the function calls for the template.
unfoldable pub parse_apply : (List CfParam → Loading → Run) → CfValue → Loading → Run
unfolding apply_text token_to_string
parse_apply set_params vl st =
    apply_text set_params vl st (token_to_string (some st.conf.vars) vl.tokens)

unfoldable pub each : (CfValue → Loading → Run) → List CfValue → Loading → Run
each f [] st = done st
each f (v ∷ vs) st = and_run (f v st) (λ st'. each f vs st')

-- A key that the table lacks goes to the plugins.
pub store_value : SectionEnv → Str → Option ParserEntry → Loading → Str → Loading
unfolding keep_old call_plugin_parser
store_value x key none st val = record st {
  pl_data = (call_plugin_parser x.parse_config st.pl_data key val).1;
}
store_value x key (some e) st val = record st { conf = keep_old st.conf (e.parse st.conf val) }

-- A write through a NULL pointer in add_passthru_conf ends the process.
pub run_on : QueueTail → Loading → Run
run_on null_tail st = done st
run_on valid_tail st = done st
run_on written_null_tail st = fault

pub set_text : (Loading → Str → Loading) → Loading → Text → Run
unfolding run_on
set_text store st (Text.text val) =
    let stored = store st val in run_on stored.conf.passthru_tail stored
set_text store st Text.failed = done st
set_text store st Text.fault = fault

pub clear_values : Option ParserEntry → Bool → Loading → Loading
unfolding clear_with
clear_values none append st = st
clear_values (some e) append st = record st { conf = clear_with e.clear append st.conf }

-- A parameter that is neither a variable nor `.apply`.
unfoldable pub set_known : SectionEnv → Str → CfParam → Option ParserEntry → Loading → Run
unfolding clear_values each set_text store_value token_to_string
set_known x key p e st =
    each (λ v s. set_text (store_value x key e) s (token_to_string (some s.conf.vars) v.tokens))
      p.vals (clear_values e p.append st)

store_var : Str → Loading → Str → Loading
unfolding set_var
store_var key st val = record st {
  conf = record st.conf { vars = (set_var st.conf.vars key val).1 };
}

-- A variable takes the first value.
pub set_variable : Str → List CfValue → Loading → Run
unfolding set_text store_var token_to_string
set_variable key [] st = fault
set_variable key (v ∷ vs) st =
    set_text (store_var key) st (token_to_string (some st.conf.vars) v.tokens)

pub set_key : SectionEnv → (List CfParam → Loading → Run) → CfParam → Loading → TokenKind → Run
unfolding set_variable parse_apply each set_known parser_list find_parser case_eq
set_key x set_params p st (TokenKind.var key) = set_variable key p.vals st
set_key x set_params p st (TokenKind.str key) =
    if case_eq key (codes ".apply")
    then each (parse_apply set_params) p.vals st
    else set_known x key p (find_parser (parser_list x.parser) key) st
set_key x set_params p st _ = fault

-- The loop of vm_conf_set_params.
unfoldable pub set_params_with :
    SectionEnv → (List CfParam → Loading → Run) → List CfParam → Loading → Run
unfolding set_key
set_params_with x set_params [] st = done st
set_params_with x set_params (p ∷ ps) st =
    and_run (set_key x set_params p st p.key.kind) (λ st'. set_params_with x set_params ps st')

-- The fuel bounds the depth of the templates that are applied in one another.
unfoldable pub vm_conf_set_params : ℕ → SectionEnv → List CfParam → Loading → Run
unfolding set_params_with
vm_conf_set_params zero x ps st = out_of_fuel
vm_conf_set_params (suc fuel) x ps st = set_params_with x (vm_conf_set_params fuel x) ps st
