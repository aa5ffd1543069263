-- ===== src/Control/OneName.antt =====
-- The commands of bmdctl that want one name, with and without `-f`.
use bmd.Prelude.{◌≡◌, ◌≢◌, List, [], ◌∷◌, Str, codes, All, str_eq, arith}
use bmd.Control.{usage, control, subcommand, getopt}

-- The commands that are tested together with `argc == 3`.
abbrev pub one_name_commands : List Str
one_name_commands =
    codes "inspect"
    ∷ codes "console"
    ∷ codes "showcomport"
    ∷ codes "reset"
    ∷ codes "poweroff"
    ∷ codes "stop"
    ∷ codes "shutdown"
    ∷ []

-- Each command that wants one name is refused with the usage where `-f` and a file stand before it,
-- though the same command without them is not.
pub control_one_name :
    (file name : Str)
    → All
        (λ c.
          ((control (codes "-f" ∷ file ∷ c ∷ name ∷ [])).1 ≡ usage)
          × ((control (c ∷ name ∷ [])).1 ≢ usage))
        one_name_commands
unfolding control subcommand getopt str_eq
control_one_name file name = ground arith
