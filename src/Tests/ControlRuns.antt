-- ===== src/Tests/ControlRuns.antt =====
-- Calls of bmdctl at concrete inputs.
use bmd.Prelude.{
  ◌≡◌, ◌≢◌, ◌↔◌, refl, true, false, none, some, [], ◌∷◌, ◌++◌, codes, str_eq, All, if◌then◌else◌,
}
use bmd.Control.{usage, do_boot_console, direct_run, getopt, subcommand, control, inspect_lines}
use bmd.Control.OneName.{one_name_commands, control_one_name}
use bmd.Control.Known.{control-get_command_function}
use bmd.Server.Dispatch.{get_command_function}
use bmd.Tests.Samples.{sample_conf}

boot_with_console :
    control (codes "-f" ∷ codes "bmd.conf" ∷ codes "boot" ∷ codes "-c" ∷ codes "vm" ∷ [])
    ≡ (some (codes "bmd.conf"), do_boot_console (codes "vm") 1 true false)
unfolding control subcommand getopt str_eq
boot_with_console = refl

run_options :
    (control (codes "run" ∷ codes "-is" ∷ codes "--" ∷ codes "-vm" ∷ [])).1
    ≡ direct_run (codes "-vm") true true
unfolding control subcommand getopt str_eq
run_options = refl

inspect_text :
    inspect_lines
      (λ conf. if conf.install then none else some (codes "boot" ++ 10 ∷ []))
      sample_conf
    ≡ codes "installcmd = (null)" ++ 10 ∷ (codes "loadcmd = boot\\n" ++ 10 ∷ [])
unfolding inspect_lines
inspect_text = refl

control_one_name_example :
    All
      (λ c.
        ((control (codes "-f" ∷ codes "bmd.conf" ∷ c ∷ codes "vm" ∷ [])).1 ≡ usage)
        × ((control (c ∷ codes "vm" ∷ [])).1 ≢ usage))
      one_name_commands
control_one_name_example = control_one_name (codes "bmd.conf") (codes "vm")

control-get_command_function_example :
    (get_command_function (codes "reset") ≡ none) ↔ (codes "reset" ≡ codes "stop")
unfolding control subcommand getopt str_eq
control-get_command_function_example =
    control-get_command_function (codes "reset" ∷ codes "vm" ∷ []) (codes "reset") refl
