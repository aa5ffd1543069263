-- ===== src/Control/Known.antt =====
-- The commands that bmdctl sends, and the table of the daemon.
use bmd.Prelude.{
  ℕ, ◌+◌, length, zero, suc, ◌==◌, ◌≡◌, ◌↔◌, ◌⊎◌, refl, sym, Bool, true, false, Bool-cases, if_both,
  inl, inr, ◌&&◌, ◌||◌, not, Option, none, some, List, [], ◌∷◌, Str, codes, str_eq, case_eq,
  str_eq_iff, arith,
}
use mathlib.Core.Path.{subst}
use bmd.Control.{
  Action, usage, fault, do_list, do_showconfig, do_show_vgaport, do_inspect, do_boot_console,
  direct_run, vm_command, Options, given, unknown, past_end, boot_with, run_with, with_name,
  boot_style, is_vm_command, last_command, start_command, named_command, subcommand, control, first,
  has_letter,
}
use bmd.Server.Dispatch.{Cfunc, get_command_function}

-- The command of the request: `command[boot_style]`, or the word itself.
abbrev pub boot_command : ℕ → Str
boot_command zero = codes "showcomport"
boot_command (suc zero) = codes "boot"
boot_command (suc (suc n)) = codes "install"

abbrev pub command_of : Action → Option Str
command_of do_list = some (codes "list")
command_of (do_show_vgaport name) = some (codes "showvgaport")
command_of (do_boot_console name style console show) = some (boot_command style)
command_of (vm_command c name) = some c
command_of _ = none

abbrev IsStop : Str → Type 0
IsStop c = (get_command_function c ≡ none) ↔ (c ≡ codes "stop")

known :
    (c : Str)
    → (f : Cfunc) → get_command_function c ≡ some f
    → str_eq c (codes "stop") ≡ false
    → IsStop c
known c f e h = (λ n. cc (e, n), λ s. cc ((str_eq_iff c (codes "stop")).1 s, h))

abbrev Sends : Action → Type 0
Sends a = (c : Str) → command_of a ≡ some c → IsStop c

sends : (a : Action) (w : Str) → command_of a ≡ some w → IsStop w → Sends a
sends a w e h c e' = subst IsStop (cc (e, e')) h

silent : (a : Action) → command_of a ≡ none → Sends a
silent a e c e' = cc (e, e')

list-IsStop : IsStop (codes "list")
unfolding get_command_function case_eq str_eq
list-IsStop = known (codes "list") Cfunc.list refl refl

boot-IsStop : (style : ℕ) → IsStop (boot_command style)
unfolding get_command_function case_eq str_eq
boot-IsStop zero = known (codes "showcomport") Cfunc.showcomport refl refl
boot-IsStop (suc zero) = known (codes "boot") Cfunc.boot refl refl
boot-IsStop (suc (suc n)) = known (codes "install") Cfunc.install refl refl

vgaport-IsStop : IsStop (codes "showvgaport")
unfolding get_command_function case_eq str_eq
vgaport-IsStop = known (codes "showvgaport") Cfunc.showvgaport refl refl

stop-IsStop : IsStop (codes "stop")
unfolding get_command_function case_eq str_eq
stop-IsStop = (λ h. refl, λ h. refl)

-- A word that is compared with another.
word : (c w : Str) → IsStop w → str_eq c w ≡ true → IsStop c
word c w h e = subst IsStop (sym ((str_eq_iff c w).0 e)) h

or_cases : (p q : Bool) → (p || q) ≡ true → (p ≡ true) ⊎ (q ≡ true)
or_cases true q h = inl refl
or_cases false q h = inr h

reset-IsStop : IsStop (codes "reset")
unfolding get_command_function case_eq str_eq
reset-IsStop = known (codes "reset") Cfunc.reset refl refl

poweroff-IsStop : IsStop (codes "poweroff")
unfolding get_command_function case_eq str_eq
poweroff-IsStop = known (codes "poweroff") Cfunc.poweroff refl refl

shutdown-IsStop : IsStop (codes "shutdown")
unfolding get_command_function case_eq str_eq
shutdown-IsStop = known (codes "shutdown") Cfunc.shutdown refl refl

vm_command-IsStop : (c : Str) → is_vm_command c ≡ true → IsStop c
unfolding is_vm_command
vm_command-IsStop c h = elim (or_cases _ _ h) [
  | inl e ↦ word c (codes "reset") reset-IsStop e
  | inr h ↦ elim (or_cases _ _ h) [
    | inl e ↦ word c (codes "poweroff") poweroff-IsStop e
    | inr h ↦ elim (or_cases _ _ h) [
      | inl e ↦ word c (codes "stop") stop-IsStop e
      | inr e ↦ word c (codes "shutdown") shutdown-IsStop e
    ]
  ]
]

usage-Sends : Sends usage
usage-Sends = silent usage refl

fault-Sends : Sends fault
fault-Sends = silent fault refl

console-Sends :
    (name : Str) (style : ℕ) (console show : Bool) → Sends (do_boot_console name style console show)
console-Sends name style console show =
    sends (do_boot_console name style console show) (boot_command style) refl (boot-IsStop style)

boot_with-Sends : (style : ℕ) (o : Options) → Sends (boot_with style o)
unfolding boot_with
boot_with-Sends style unknown = usage-Sends
boot_with-Sends style past_end = fault-Sends
boot_with-Sends style (given letters []) = usage-Sends
boot_with-Sends style (given letters (name ∷ _)) =
    console-Sends name style (has_letter b'c' letters) false

run-Sends : (name : Str) (install single : Bool) → Sends (direct_run name install single)
run-Sends name install single = silent (direct_run name install single) refl

run_with-Sends : (o : Options) → Sends (run_with o)
unfolding run_with
run_with-Sends unknown = usage-Sends
run_with-Sends past_end = fault-Sends
run_with-Sends (given letters []) = usage-Sends
run_with-Sends (given letters (name ∷ _)) =
    run-Sends name (has_letter b'i' letters) (has_letter b's' letters)

with_name-Sends :
    (act : Str → Action) (args : List Str)
    → ((name : Str) → Sends (act name))
    → Sends (with_name act args)
unfolding with_name
with_name-Sends act [] h = fault-Sends
with_name-Sends act (name ∷ _) h = h name

last_command-Sends : (c : Str) (args : List Str) (argc : ℕ) → Sends (last_command c args argc)
unfolding last_command
last_command-Sends c args argc = elim (Bool-cases (argc == 3 && is_vm_command c)) [
  | inl e ↦
      rw (e, last_command)
        (with_name-Sends (vm_command c) args
          (λ name. sends (vm_command c name) c refl (vm_command-IsStop c (ground arith))))
  | inr e ↦ rw (e, last_command) usage-Sends
]

start_command-Sends : (c : Str) (args : List Str) (argc : ℕ) → Sends (start_command c args argc)
unfolding start_command
start_command-Sends c args argc =
    if_both Sends (not (boot_style c == 0)) _ _ (boot_with-Sends _ _) (
      if_both Sends (str_eq c (codes "run")) _ _ (run_with-Sends _)
        (last_command-Sends c args argc))

named_command-Sends :
    (c : Str) (args : List Str) (argc : ℕ) (other : Action)
    → Sends other
    → Sends (named_command c args argc other)
unfolding named_command
named_command-Sends c args argc other h =
    if_both Sends (argc == 3 && str_eq c (codes "inspect")) _ _
      (with_name-Sends do_inspect args (λ name. silent (do_inspect name) refl))
      (if_both Sends (argc == 3 && str_eq c (codes "console")) _ _
        (with_name-Sends _ args (λ name. console-Sends name 0 true false))
        (if_both Sends (argc == 3 && str_eq c (codes "showcomport")) _ _
          (with_name-Sends _ args (λ name. console-Sends name 0 false true)) h))

subcommand-Sends : (args : List Str) (argc : ℕ) → Sends (subcommand args argc)
unfolding subcommand
subcommand-Sends [] argc = fault-Sends
subcommand-Sends (c ∷ args) argc =
    if_both Sends (str_eq c (codes "list")) _ _ (sends do_list (codes "list") refl list-IsStop) (
      if_both Sends (str_eq c (codes "showconfig")) _ _ (silent (do_showconfig (first args)) refl) (
        if_both Sends (str_eq c (codes "showvgaport")) _ _
          (sends (do_show_vgaport (first args)) (codes "showvgaport") refl vgaport-IsStop)
          (named_command-Sends c args argc _ (start_command-Sends c args argc))))

-- The daemon knows each command that bmdctl sends but `stop`, which it does not know.
pub control-get_command_function :
    (args : List Str) (c : Str)
    → command_of (control args).1 ≡ some c
    → (get_command_function c ≡ none) ↔ (c ≡ codes "stop")
unfolding control
control-get_command_function [] c h = usage-Sends c h
control-get_command_function (a ∷ []) c h = subcommand-Sends (a ∷ []) 2 c h
control-get_command_function (a ∷ d ∷ args) c h =
    if_both (λ (r : Option Str × Action). Sends r.1) (str_eq a (codes "-f")) _ _
      (subcommand-Sends args _) (subcommand-Sends (a ∷ d ∷ args) (length args + 3)) c h
