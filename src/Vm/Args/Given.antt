-- ===== src/Vm/Args/Given.antt =====
-- The arguments of bhyve that are NULL.
use bmd.Prelude.{
  ℕ, ◌+◌, ap, sym, map, ◌≡◌, refl, Bool, Option, none, some, List, [], ◌∷◌, ◌++◌, Str, codes, All,
  case_eq, if_both,
}
use mathlib.Core.Path.{subst}
use mathlib.Core.List.{append_assoc}
use bmd.Parser.Load.Checked.{IsChecked}
use bmd.Conf.{HostbridgeType, VmConf}
use bmd.Vm.{Vm}
use bmd.Vm.Args.{
  Args, args_if, option_args, slot, all_devices, loader_args, hostbridge_args, comport_args,
  option_part, exec_args,
}
use bmd.Vm.Args.Slots.{devices, numbered, all_devices-numbered}

-- An argument that is not NULL.
abbrev pub IsGiven : Option Str → Type 0
IsGiven none = ⊥
IsGiven (some s) = Unit {0}

All-append : (xs ys : Args) → All IsGiven xs → All IsGiven ys → All IsGiven (xs ++ ys)
All-append [] ys h k = k
All-append (x ∷ xs) ys h k = (h.0, All-append xs ys h.1 k)

numbered-All : (n : ℕ) (ds : List Str) → All IsGiven (numbered n ds)
unfolding slot
numbered-All n [] = tt
numbered-All n (d ∷ ds) = (tt, (tt, numbered-All (n + 1) ds))

option_args-All : (flag : Str) (o : Option Str) → All IsGiven (option_args flag o)
unfolding option_args
option_args-All flag none = tt
option_args-All flag (some s) = (tt, (tt, tt))

comport_args-All : (o : Option Str) → All IsGiven (comport_args o)
unfolding comport_args
comport_args-All none = tt
comport_args-All (some s) = (tt, (tt, tt))

loader_args-All : (l v : Option Str) → All IsGiven (loader_args l v)
unfolding loader_args
loader_args-All none v = tt
loader_args-All (some l) v =
    if_both (All IsGiven) (case_eq l (codes "uefi")) _ _ (tt, (tt, tt))
      (if_both (All IsGiven) (case_eq l (codes "csm")) _ _ (tt, (tt, tt)) tt)

hostbridge_args-All : (h : HostbridgeType) → All IsGiven (hostbridge_args h)
unfolding hostbridge_args
hostbridge_args-All HostbridgeType.none = (tt, tt)
hostbridge_args-All HostbridgeType.intel = (tt, (tt, tt))
hostbridge_args-All HostbridgeType.amd = (tt, (tt, tt))

-- What is passed to the program: the pointers before the first NULL.
pub passed : Args → List Str
passed [] = []
passed (none ∷ as') = []
passed (some s ∷ as') = s ∷ passed as'

args_if-All : (b : Bool) (xs : Args) → All IsGiven xs → All IsGiven (args_if b xs)
args_if-All b xs h = if_both (All IsGiven) b xs [] h tt

option_part-All :
    (conf : VmConf) (vm : Vm)
    → IsGiven conf.ncpu
    → IsGiven conf.memory
    → All IsGiven (option_part conf vm)
unfolding option_part
option_part-All conf vm n m =
    let bridge =
      All-append (hostbridge_args conf.hostbridge) _ (hostbridge_args-All conf.hostbridge)
        (tt, (tt, tt)) in
    let boot =
      All-append (loader_args conf.loader vm.varsfile) _ (loader_args-All conf.loader vm.varsfile)
        bridge in
    let keys =
      All-append (option_args (codes "-K") conf.keymap) _ (option_args-All (codes "-K") conf.keymap)
        boot in
    let port =
      All-append (comport_args vm.assigned_comport) _ (comport_args-All vm.assigned_comport) keys in
    let debug =
      All-append (option_args (codes "-G") conf.debug_port) _
        (option_args-All (codes "-G") conf.debug_port) (tt, (n, (tt, (m, port)))) in
    let wired =
      All-append (args_if conf.wired_memory (some (codes "-S") ∷ [])) _
        (args_if-All conf.wired_memory _ (tt, tt)) debug in
    let clock =
      All-append (args_if conf.utctime (some (codes "-u") ∷ [])) _
        (args_if-All conf.utctime _ (tt, tt)) wired in
    (tt, (tt, (tt, (tt, clock))))

passed-All :
    (xs : Args)
    → All IsGiven xs
    → map some (passed (xs ++ none ∷ [])) ++ none ∷ [] ≡ xs ++ none ∷ []
unfolding passed
passed-All [] h = refl
passed-All (none ∷ xs) h = elim h.0 [ ]
passed-All (some s ∷ xs) h = ap (λ t. some s ∷ t) (passed-All xs h.1)

IsGiven-some : (o : Option Str) → (s : Str) × (o ≡ some s) → IsGiven o
IsGiven-some o (s, e) = rw e tt

-- Of a configuration that was accepted by a load, every argument that is written for bhyve is passed
-- to it: only the pointer at the end of the vector is NULL.
pub exec_args-passed :
    (conf : VmConf) (vm : Vm)
    → IsChecked conf
    → map some (passed (exec_args conf vm)) ++ none ∷ [] ≡ exec_args conf vm
unfolding exec_args
exec_args-passed conf vm c =
    let devices_given =
      subst (All IsGiven) (sym (all_devices-numbered conf vm)) (numbered-All 2 (devices conf vm)) in
    let given =
      All-append (option_part conf vm) _
        (option_part-All conf vm (IsGiven-some conf.ncpu c.ncpu)
          (IsGiven-some conf.memory c.memory))
        (All-append (all_devices conf vm) (some conf.name ∷ []) devices_given (tt, tt)) in
    let e : (option_part conf vm ++ (all_devices conf vm ++ some conf.name ∷ [])) ++ none ∷ []
        ≡ option_part conf vm ++ (all_devices conf vm ++ some conf.name ∷ none ∷ []) =
      simp append_assoc in
    subst (λ t. map some (passed t) ++ none ∷ [] ≡ t) e
      (passed-All (option_part conf vm ++ (all_devices conf vm ++ some conf.name ∷ [])) given)
