-- ===== src/Tests/PassthruRuns.antt =====
-- The first assignment of a passed-through device.
use bmd.Prelude.{Bool, ◌≢◌, case_eq, ◌≡◌, refl, true, false, [], ◌∷◌, codes}
use bmd.Conf.Create.{create_vm_conf, add_passthru_conf, clear_passthru_conf}
use bmd.Parser.Params.{parser_list, find_parser}
use bmd.Parser.Values.{parse_passthru}
use bmd.Parser.Tokens.{token_to_string}
use bmd.Parser.Sections.{fault, CfParam, Loading, vm_conf_set_params}
use bmd.Tests.LoadRuns.{word, value_of, section_env}

-- `passthru += 2/0/0` and `passthru = 2/0/0` as the first of a new configuration.
abbrev new_loading : Loading
new_loading = record {
  conf = (create_vm_conf (record { entries = []; lastid = 0 }) (codes "vm1")).1;
  pl_data = [];
  templates = [];
}

abbrev passthru : Bool → CfParam
passthru append = record {
  key = word (codes "passthru");
  vals = value_of (codes "2/0/0") ∷ [];
  append = append;
}

first_append : vm_conf_set_params 1 section_env (passthru true ∷ []) new_loading ≡ fault
unfolding vm_conf_set_params parser_list find_parser parse_passthru add_passthru_conf create_vm_conf
    token_to_string case_eq
first_append = refl

first_assignment :
    vm_conf_set_params 1 section_env (passthru false ∷ passthru true ∷ []) new_loading ≢ fault
unfolding vm_conf_set_params parser_list find_parser parse_passthru add_passthru_conf
    clear_passthru_conf create_vm_conf token_to_string case_eq
first_assignment e = cc e
