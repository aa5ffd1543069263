-- ===== src/Tests/LoadRuns.antt =====
-- The loading of configuration files at concrete inputs.
use bmd.Prelude.{
  ◌≡◌, refl, true, false, none, some, [], ◌∷◌, str_eq, Option, codes, All, arith, Str, ℕ,
}
use bmd.Conf.Vars.{Variables, get_var0}
use bmd.Conf.Create.Ids.{IdList}
use bmd.Conf.Setters.{set_memory_size}
use bmd.Parser.Values.{parse_memory, parse_loader, parse_ncpu}
use bmd.Vm.{State}
use bmd.Daemon.Reload.{reload_virtual_machines}
use bmd.Global.{gl_conf0, no_global_conf}
use bmd.Parser.Mpool.{mperr_alloc, new_block}
use bmd.Parser.Tokens.{CfToken, TokenKind, text, token_to_string}
use bmd.Parser.Sections.{CfValue, CfParam, CfSection, Loading, Run, SectionEnv, vm_conf_set_params}
use bmd.Parser.Sections.Applied.{Ends, vm_conf_set_params-Ends}
use bmd.Parser.Sections.Marked.{unapplied-le_length}
use bmd.Parser.Files.{FileKind, exited, FileEnv}
use bmd.Parser.Load.{LoadEnv, load_globals, load_vms}
use bmd.Parser.Load.Root.{of_root, load_globals-of_root}
use bmd.Parser.Load.Checked.{AreChecked, load_vms-AreChecked}
use bmd.Parser.ConfigFile.{loaded, tree, first_vars, load_config_file}
use bmd.Parser.ConfigFile.Missing.{load_missing_file}
use bmd.Tests.Samples.{sample_conf, sample_plugins, sample_env, daemon_in}

abbrev token : TokenKind → CfToken
token k = record { kind = k; filename = codes "/usr/local/etc/bmd.conf"; lineno = 1 }

abbrev pub word : Str → CfToken
word s = token (TokenKind.str s)

abbrev pub value_of : Str → CfValue
value_of s = record { tokens = word s ∷ []; args = [] }

abbrev param : Str → Str → CfParam
param key val = record { key = word key; vals = value_of val ∷ []; append = false }

abbrev some_vars : Variables
some_vars = record { global = none; local = some ((codes "ID", codes "7") ∷ []); args = none }

-- disk-${ID}.img, where the second part has the suffix.
put_together :
    token_to_string
      (some some_vars)
      (word (codes "disk-") ∷ token (TokenKind.var (codes "ID")) ∷ word (codes ".img") ∷ [])
    ≡ text (codes "disk-7.img")
unfolding token_to_string get_var0 str_eq
put_together = refl

-- A template with an argument, which applies itself.
abbrev pub base_template : CfSection
base_template = record {
  name = codes "base";
  params =
      record {
        key = word (codes "memory");
        vals = record { tokens = token (TokenKind.var (codes "mem")) ∷ []; args = [] } ∷ [];
        append = false;
      }
      ∷ param (codes ".apply") (codes "base")
      ∷ [];
  argdefs = record { name = codes "mem"; tokens = word (codes "1G") ∷ [] } ∷ [];
  applied = 0;
  duplicate = 0;
  owner = 0;
  filename = codes "/usr/local/etc/bmd.conf";
}

abbrev pub vm_section : CfSection
vm_section = record {
  name = codes "vm1";
  params =
      record {
        key = word (codes ".apply");
        vals =
            record { tokens = word (codes "base") ∷ []; args = (word (codes "4G") ∷ []) ∷ [] } ∷ [];
        append = false;
      }
      ∷ param (codes "ncpu") (codes "2")
      ∷ param (codes "loader") (codes "uefi")
      ∷ [];
  argdefs = [];
  applied = 0;
  duplicate = 0;
  owner = 1001;
  filename = codes "/home/alice/vm1.conf";
}

abbrev pub section_env : SectionEnv
section_env = record {
  parser = record {
    getpwnam = λ name. some 1001;
    getgrnam = λ name. some 5;
    in_group = λ name gid. true;
    method_exists = λ name. true;
  };
  parse_config = λ name. none;
}

abbrev no_ids : IdList
no_ids = record { entries = []; lastid = 0 }

abbrev loading : Loading
loading = record {
  conf = record sample_conf {
    vars = record { global = none; local = some []; args = none };
    memory = none;
  };
  pl_data = sample_plugins;
  templates = base_template ∷ [];
}

vm_conf_set_params-Ends_example :
    Ends (base_template ∷ []) (vm_conf_set_params 2 section_env vm_section.params loading)
vm_conf_set_params-Ends_example =
    vm_conf_set_params-Ends 2 section_env vm_section.params loading
      (omega (arith, unapplied-le_length (base_template ∷ [])))

-- What the parser asks of the system where there is no file.
abbrev pub no_files : FileEnv
no_files = record {
  realpath = λ f. none;
  readable = λ f. true;
  kind = λ f. FileKind.regular;
  opens = λ f. true;
  fork = true;
  yyparse =
      λ f ctx pools. exited true ctx (record (new_block 4096) { error_number = mperr_alloc } ∷ []);
}

abbrev load_env : LoadEnv
load_env = record {
  files = no_files;
  sections = section_env;
  getpwuid = λ uid. some (codes "alice");
  plugins = λ dir. [];
}

load_vms-AreChecked_example :
    AreChecked
      (load_vms load_env 2 [] sample_plugins (base_template ∷ []) (vm_section ∷ []) no_ids [])
load_vms-AreChecked_example =
    load_vms-AreChecked load_env 2 [] sample_plugins (base_template ∷ []) (vm_section ∷ []) no_ids
      [] (omega arith) tt

abbrev pub global_section : ℕ → Str → CfSection
global_section uid path = record {
  name = [];
  params = param (codes "pid_file") path ∷ [];
  argdefs = [];
  applied = 0;
  duplicate = 0;
  owner = uid;
  filename = codes "/home/alice/vm1.conf";
}

load_globals-of_root_example :
    load_globals no_global_conf some_vars
      (global_section 1001 (codes "/tmp/x") ∷ global_section 0 (codes "/tmp/y") ∷ [])
    ≡ load_globals no_global_conf some_vars
        (of_root (global_section 1001 (codes "/tmp/x") ∷ global_section 0 (codes "/tmp/y") ∷ []))
load_globals-of_root_example =
    load_globals-of_root no_global_conf some_vars
      (global_section 1001 (codes "/tmp/x") ∷ global_section 0 (codes "/tmp/y") ∷ [])

load_missing_file_example :
    (load_config_file load_env 1 1
        (record { update = true; wanted = true })
        (codes "/usr/local/etc/bmd.conf")
        gl_conf0
        no_ids
        (some 4096 ∷ [])
      ≡ loaded gl_conf0 (tree first_vars) no_ids [])
    × All
        (λ e. e.vm.state ≡ State.remove)
        (reload_virtual_machines (λ name. sample_env) (some []) (daemon_in State.run)).1.vm_list
unfolding reload_virtual_machines
load_missing_file_example =
    load_missing_file load_env 0 1 4096 (record { update = true; wanted = true })
      (codes "/usr/local/etc/bmd.conf") gl_conf0 no_ids [] (λ name. sample_env)
      (daemon_in State.run) refl (omega arith) refl refl

abbrev memory_of : Run → Option Str
memory_of (Run.done st) = st.conf.memory
memory_of _ = none

-- The template's memory, given as an argument.
applied : memory_of (vm_conf_set_params 2 section_env vm_section.params loading) ≡ some (codes "4G")
unfolding vm_conf_set_params token_to_string get_var0 str_eq set_memory_size parse_memory
    parse_loader parse_ncpu
applied = refl
