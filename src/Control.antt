-- ===== src/Control.antt =====
-- control.c: what bmdctl does with its arguments, and the output of `inspect`. The dialog with the
-- daemon is not modelled.
pub mod Known
pub mod OneName
use bmd.Prelude.{
  ℕ, zero, suc, ◌+◌, ◌-◌, ◌==◌, Bool, true, false, not, ◌&&◌, ◌||◌, Option, none, some, List, [],
  ◌∷◌, ◌++◌, Str, codes, str_eq, length, if◌then◌else◌,
}
use bmd.Conf.{VmConf}
use bmd.Conf.Setters.{set_install}
use bmd.Daemon.{VmConfEntry}

-- What a call of bmdctl comes to. `fault` is the use of the NULL pointer that ends `argv`.
-- `boot_console` has the machine's name, the `boot_style`, `console` and `show`; `vm_command` the
-- command and the machine's name.
pub data Action : Type 0 where
  usage fault do_list : Action
  do_showconfig do_show_vgaport : Option Str → Action
  do_inspect : Str → Action
  do_boot_console : Str → ℕ → Bool → Bool → Action
  direct_run : Str → Bool → Bool → Action
  vm_command : Str → Str → Action

-- getopt(3): the letters that are given and the arguments that are left; `?`; or the use of NULL.
pub data Options : Type 0 where
  given : Str → List Str → Options
  unknown : Options
  past_end : Options

pub has_letter : ℕ → Str → Bool
has_letter c [] = false
has_letter c (d ∷ s) = c == d || has_letter c s

are_letters : Str → Str → Bool
unfolding has_letter
are_letters ostr [] = true
are_letters ostr (c ∷ s) = has_letter c ostr && are_letters ostr s

add_letters : Str → Options → Options
add_letters s (given t args) = given (s ++ t) args
add_letters s unknown = unknown
add_letters s past_end = past_end

-- An argument that is not the last; `rest` is the result for those behind it.
next_option : Str → Str → List Str → Options → Options
unfolding are_letters add_letters str_eq
next_option ostr (c ∷ d ∷ s) args rest =
    if c == b'-'
    then (if str_eq (d ∷ s) (codes "-")
        then given [] args
        else if are_letters ostr (d ∷ s)
        then add_letters (d ∷ s) rest
        else unknown)
    else given [] ((c ∷ d ∷ s) ∷ args)
next_option ostr a args rest = given [] (a ∷ args)

-- The number is how many arguments the caller says there are.
unfoldable pub getopt : Str → ℕ → List Str → Options
unfolding next_option
getopt ostr zero args = given [] args
getopt ostr (suc n) [] = past_end
getopt ostr (suc n) (a ∷ args) = next_option ostr a args (getopt ostr n args)

boot_with : ℕ → Options → Action
unfolding has_letter
boot_with style unknown = usage
boot_with style past_end = fault
boot_with style (given letters []) = usage
boot_with style (given letters (name ∷ _)) =
    do_boot_console name style (has_letter b'c' letters) false

run_with : Options → Action
unfolding has_letter
run_with unknown = usage
run_with past_end = fault
run_with (given letters []) = usage
run_with (given letters (name ∷ _)) =
    direct_run name (has_letter b'i' letters) (has_letter b's' letters)

pub first : List Str → Option Str
first [] = none
first (a ∷ args) = some a

-- `argv[2]` where it is not tested.
with_name : (Str → Action) → List Str → Action
with_name act [] = fault
with_name act (name ∷ _) = act name

pub boot_style : Str → ℕ
unfolding str_eq
boot_style c =
    if str_eq c (codes "boot") || str_eq c (codes "start")
    then 1
    else if str_eq c (codes "install")
    then 2
    else 0

pub is_vm_command : Str → Bool
unfolding str_eq
is_vm_command c =
    str_eq c (codes "reset")
    || (str_eq c (codes "poweroff") || (str_eq c (codes "stop") || str_eq c (codes "shutdown")))

-- The last commands: those that only send the command's name and the machine's.
pub last_command : Str → List Str → ℕ → Action
unfolding is_vm_command with_name
last_command c args argc =
    if argc == 3 && is_vm_command c then with_name (vm_command c) args else usage

-- From the test of `boot_style` on.
pub start_command : Str → List Str → ℕ → Action
unfolding boot_style boot_with run_with getopt last_command str_eq
start_command c args argc =
    if not (boot_style c == 0)
    then boot_with (boot_style c) (getopt (codes "c") (argc - 2) args)
    else if str_eq c (codes "run")
    then run_with (getopt (codes "is") (argc - 2) args)
    else last_command c args argc

-- The commands that want `argc == 3`, or what else the command is.
pub named_command : Str → List Str → ℕ → Action → Action
unfolding with_name str_eq
named_command c args argc other =
    if argc == 3 && str_eq c (codes "inspect")
    then with_name do_inspect args
    else if argc == 3 && str_eq c (codes "console")
    then with_name (λ name. do_boot_console name 0 true false) args
    else if argc == 3 && str_eq c (codes "showcomport")
    then with_name (λ name. do_boot_console name 0 false true) args
    else other

-- The arguments from `argv[1]` on, and `argc` as the code counts it.
unfoldable pub subcommand : List Str → ℕ → Action
unfolding named_command start_command first str_eq
subcommand [] argc = fault
subcommand (c ∷ args) argc =
    if str_eq c (codes "list")
    then do_list
    else if str_eq c (codes "showconfig")
    then do_showconfig (first args)
    else if str_eq c (codes "showvgaport")
    then do_show_vgaport (first args)
    else named_command c args argc (start_command c args argc)

-- The file that `-f` names, and what is done. `args` are the arguments from `argv[1]` on.
unfoldable pub control : List Str → Option Str × Action
unfolding subcommand str_eq
control [] = (none, usage)
control (c ∷ []) = (none, subcommand (c ∷ []) 2)
control (c ∷ d ∷ args) =
    let argc = length args + 3 in
    if str_eq c (codes "-f")
    then (some d, subcommand args (argc + 2))
    else (none, subcommand (c ∷ d ∷ args) argc)

-- The last machine of the name.
pub find_vm_conf : List VmConfEntry → Str → Option VmConf
unfolding str_eq
find_vm_conf [] name = none
find_vm_conf (e ∷ es) name = elim (find_vm_conf es name) [
  | some conf ↦ some conf
  | none ↦ if str_eq e.conf.name name then some e.conf else none
]

-- `none` is an error of load_config_file, which prints a message of its own.
unfoldable pub lookup_vm_conf : Option (List VmConfEntry) → Str → Option VmConf
unfolding find_vm_conf
lookup_vm_conf none name = none
lookup_vm_conf (some list) name = find_vm_conf list name

-- The ends of lines are written as `\n`.
pub escape_newlines : Str → Str
escape_newlines [] = []
escape_newlines (c ∷ s) =
    let rest = escape_newlines s in if c == 10 then b'\\' ∷ b'n' ∷ rest else c ∷ rest

pub command_text : Option Str → Str
unfolding escape_newlines
command_text none = codes "(null)"
command_text (some s) = escape_newlines s

-- What do_inspect prints; `inspect` is that of inspect.c.
unfoldable pub inspect_lines : (VmConf → Option Str) → VmConf → Str
unfolding set_install command_text
inspect_lines inspect conf =
    codes "installcmd = "
    ++ (command_text (inspect (set_install conf true))
        ++ (10 ∷ codes "loadcmd = "
            ++ (command_text (inspect (set_install conf false)) ++ 10 ∷ [])))
