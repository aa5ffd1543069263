-- ===== src/Daemon/Comport/Fresh.antt =====
-- A null modem device that is assigned is a new one.
use bmd.Prelude.{
  ◌≡◌, ◌≢◌, refl, sym, ap, ℤ, pos, negsuc, ◌+ℤ◌, ◌-ℤ◌, ltb_ℤ, max_ℤ, ◌≤ℤ◌, true, Option, none, some,
  List, [], ◌∷◌, ◌++◌, Str, codes, case_eq, All, arith, if◌then◌else◌,
}
use mathlib.Core.Path.{subst}
use bmd.Conf.{VmConf}
use bmd.Conf.Compare.{to_int}
use bmd.Vm.{Vm}
use bmd.Daemon.{Env}
use bmd.Daemon.Comport.{
  ask_port, pick_port, assign_comport, is_number, read_digits, get_nmdm_number, max_number,
  device_names, new_number, device_path,
}
use bmd.Daemon.Comport.ReadBack.{int_max, to_int_small, get_nmdm_number-device_path}

abbrev pub IsBelow : ℤ → Option Str → Type 0
IsBelow n p = ltb_ℤ (get_nmdm_number p) n ≡ true

max_ℤ_left : (a b : ℤ) → a ≤ℤ max_ℤ a b
max_ℤ_left a b = ground arith

max_ℤ_right : (a b : ℤ) → b ≤ℤ max_ℤ a b
max_ℤ_right a b = ground arith

≤ℤ_trans : (a b c : ℤ) → a ≤ℤ b → b ≤ℤ c → a ≤ℤ c
≤ℤ_trans a b c h k = ground arith

max_number_least : (ps : List (Option Str)) (m : ℤ) → m ≤ℤ max_number ps m
unfolding max_number
max_number_least [] m = ground arith
max_number_least (p ∷ ps) m =
    ≤ℤ_trans m _ _ (max_ℤ_right (get_nmdm_number p) m)
      (max_number_least ps (max_ℤ (get_nmdm_number p) m))

below_mono : (a b n : ℤ) → a ≤ℤ b → ltb_ℤ b n ≡ true → ltb_ℤ a n ≡ true
below_mono a b n h k = ground arith

max_number-IsBelow :
    (ps : List (Option Str)) (m n : ℤ) → ltb_ℤ (max_number ps m) n ≡ true → All (IsBelow n) ps
unfolding max_number
max_number-IsBelow [] m n h = tt
max_number-IsBelow (p ∷ ps) m n h =
    let m' = max_ℤ (get_nmdm_number p) m in
    (
      below_mono (get_nmdm_number p) (max_number ps m') n
          (≤ℤ_trans _ m' _ (max_ℤ_left (get_nmdm_number p) m) (max_number_least ps m')) h,
      max_number-IsBelow ps m' n h,
    )

-- An `int` that has a predecessor.
abbrev pub HasPredecessor : ℤ → Type 0
HasPredecessor offset = (negsuc 2147483646 ≤ℤ offset) × (offset ≤ℤ int_max)

max_number_below :
    (ps : List (Option Str)) (m n : ℤ)
    → All (IsBelow n) ps
    → ltb_ℤ m n ≡ true
    → ltb_ℤ (max_number ps m) n ≡ true
unfolding max_number
max_number_below [] m n h k = k
max_number_below (p ∷ ps) m n (h, hs) k =
    max_number_below ps (max_ℤ (get_nmdm_number p) m) n hs (ground (arith, h, k))

-- The successor of the maximum, or the offset.
next_number : ℤ → ℤ → ℤ
unfolding to_int ◌+ℤ◌ ◌-ℤ◌
next_number max offset =
    let least = to_int (offset -ℤ pos 1) in
    to_int ((if ltb_ℤ max least then least else max) +ℤ pos 1)

-- Where an `int` has room, nothing is lost.
next_number_exact :
    (max offset : ℤ)
    → HasPredecessor offset
    → negsuc 0 ≤ℤ max
    → ltb_ℤ max int_max ≡ true
    → next_number max offset
      ≡ (if ltb_ℤ max (offset -ℤ pos 1) then offset -ℤ pos 1 else max) +ℤ pos 1
unfolding next_number ◌+ℤ◌ ◌-ℤ◌
next_number_exact max offset o h k =
    let least : to_int (offset -ℤ pos 1) ≡ offset -ℤ pos 1 =
      to_int_small _ (ground arith) (ground arith) in
    rw least (to_int_small _ (ground arith) (ground arith))

exact_lem :
    (max offset n : ℤ)
    → HasPredecessor offset
    → negsuc 0 ≤ℤ max
    → ltb_ℤ max int_max ≡ true
    → n ≡ (if ltb_ℤ max (offset -ℤ pos 1) then offset -ℤ pos 1 else max) +ℤ pos 1
    → (ltb_ℤ max n ≡ true) × (pos 0 ≤ℤ n) × (offset ≤ℤ n) × (n ≤ℤ int_max)
unfolding ◌+ℤ◌ ◌-ℤ◌
exact_lem max offset n o h k e = (ground arith, ground arith, ground arith, ground arith)

-- Where every port has a number below the greatest `int`, the new number is above each of them.
new_number_lem :
    (offset : ℤ) (used : List (Option Str)) (names : List Str)
    → HasPredecessor offset
    → All (IsBelow int_max) used
    → All (IsBelow int_max) (device_names names)
    → (ltb_ℤ
          (max_number (device_names names) (max_number used (negsuc 0)))
          (new_number offset used names)
        ≡ true)
      × (pos 0 ≤ℤ new_number offset used names)
      × (offset ≤ℤ new_number offset used names)
      × (new_number offset used names ≤ℤ int_max)
unfolding new_number next_number
new_number_lem offset used names o hu hn =
    let m = max_number used (negsuc 0) in
    let max = max_number (device_names names) m in
    let low =
      ≤ℤ_trans (negsuc 0) m max (max_number_least used (negsuc 0))
        (max_number_least (device_names names) m) in
    let high =
      max_number_below (device_names names) m int_max hn
        (max_number_below used (negsuc 0) int_max hu refl) in
    exact_lem max offset (next_number max offset) o low high
      (next_number_exact max offset o low high)

below-other : (n : ℤ) (p q : Option Str) → get_nmdm_number q ≡ n → IsBelow n p → p ≢ q
below-other n p q h below e = ground (arith, ap get_nmdm_number e)

All-below-other :
    (n : ℤ) (q : Option Str)
    → get_nmdm_number q ≡ n
    → (ps : List (Option Str)) → All (IsBelow n) ps
    → All (λ p. p ≢ q) ps
All-below-other n q h [] below = tt
All-below-other n q h (p ∷ ps) (b, below) = (below-other n p q h b, All-below-other n q h ps below)

asked_port :
    (env : Env) (offset : ℤ) (used : List (Option Str)) (vm : Vm) (asked assigned : Option Str)
    (port : Str) (names : List Str)
    → asked ≡ some port
    → case_eq port (codes "auto") ≡ true
    → assigned ≡ none
    → env.devices ≡ some names
    → env.stat ≡ true
    → ask_port env offset used vm asked assigned
      ≡ (true, record vm { assigned_comport = some (device_path (new_number offset used names)) })
unfolding ask_port pick_port
asked_port env offset used vm asked assigned port names h auto new devices stat =
    ground (arith, h, auto, new, devices, stat)

-- The devices with their directory. It has no digit.
abbrev pub device_paths : List Str → List (Option Str)
device_paths [] = []
device_paths (d ∷ ds) = some (codes "/dev/" ++ d) ∷ device_paths ds

device_paths-IsBelow :
    (n : ℤ) (names : List Str)
    → All (IsBelow n) (device_names names)
    → All (IsBelow n) (device_paths names)
unfolding device_names get_nmdm_number read_digits is_number
device_paths-IsBelow n [] h = tt
device_paths-IsBelow n (d ∷ ds) (h, hs) = (h, device_paths-IsBelow n ds hs)

-- What is promised of the new device.
abbrev pub IsNewPort : ℤ → List (Option Str) → List Str → Option Str → Type 0
IsNewPort offset used names port =
    (port ≢ none)
    × All (λ p. p ≢ port) used
    × All (λ p. p ≢ port) (device_paths names)
    × (offset ≤ℤ get_nmdm_number port)

device_path-IsNewPort :
    (offset : ℤ) (used : List (Option Str)) (names : List Str)
    → HasPredecessor offset
    → All (IsBelow int_max) used
    → All (IsBelow int_max) (device_names names)
    → IsNewPort offset used names (some (device_path (new_number offset used names)))
device_path-IsNewPort offset used names o hu hn =
    let n = new_number offset used names in
    let q : Option Str = some (device_path n) in
    let m = max_number used (negsuc 0) in
    let max = max_number (device_names names) m in
    let (above, sign, least, fits) = new_number_lem offset used names o hu hn in
    let read = get_nmdm_number-device_path n sign fits in
    let below = below_mono m max n (max_number_least (device_names names) m) above in
    (
      (λ e. ground (arith, e)),
      All-below-other n q read used (max_number-IsBelow used (negsuc 0) n below),
      All-below-other n q read (device_paths names)
          (device_paths-IsBelow n names (max_number-IsBelow (device_names names) m n above)),
      rw read least,
    )

-- A machine without a com port that asks for `auto`, where /dev can be read and a device reserved,
-- is given a device, if the offset has a predecessor as an `int`, and every com port in the list of
-- used ports and every device in /dev has a number below the greatest `int`. It is the com port of no
-- machine in the list of used ports, its path is that of none of the devices in /dev, and its number
-- is not below the configured offset.
pub assign_comport-IsNewPort :
    (env : Env) (offset : ℤ) (used : List (Option Str)) (conf : VmConf) (vm : Vm) (port : Str)
    (names : List Str)
    → HasPredecessor offset
    → All (IsBelow int_max) used
    → All (IsBelow int_max) (device_names names)
    → conf.comport ≡ some port
    → case_eq port (codes "auto") ≡ true
    → vm.assigned_comport ≡ none
    → env.devices ≡ some names
    → env.stat ≡ true
    → ((assign_comport env offset used conf vm).0 ≡ true)
      × IsNewPort offset used names (assign_comport env offset used conf vm).1.assigned_comport
unfolding assign_comport
assign_comport-IsNewPort env offset used conf vm port names o hu hn h auto new devices stat =
    let e =
      asked_port env offset used vm conf.comport vm.assigned_comport port names h auto new devices
        stat in
    (
      ap (λ r. r.0) e,
      subst (λ r. IsNewPort offset used names r.1.assigned_comport) (sym e)
          (device_path-IsNewPort offset used names o hu hn),
    )
