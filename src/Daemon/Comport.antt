-- ===== src/Daemon/Comport.antt =====
-- The assignment of null modem devices in bmd.c.
pub mod ReadBack
pub mod Fresh
use bmd.Prelude.{
  ℕ, suc, ◌+◌, ◌-◌, ◌*◌, ℤ, pos, negsuc, ◌+ℤ◌, ◌-ℤ◌, ◌*ℤ◌, ltb_ℤ, max_ℤ, Bool, true, false, ◌&&◌,
  not, Option, none, some, List, [], ◌∷◌, ◌++◌, Str, codes, case_eq, leb, show_int, if◌then◌else◌,
}
use bmd.Conf.{VmConf}
use bmd.Conf.Compare.{to_int}
use bmd.Vm.{Vm}
use bmd.Daemon.{VmEntry, Env, World}

pub is_number : ℕ → Bool
is_number c = leb b'0' c && leb c b'9'

-- The digits of a name, read as one `int`. The sum is stored modulo 2^32, in two's complement; the
-- overflow is undefined in C.
read_digits : ℤ → Str → ℤ
unfolding is_number to_int ◌*ℤ◌ ◌+ℤ◌ ◌-ℤ◌
read_digits v [] = v
read_digits v (c ∷ s) =
    read_digits (if is_number c then to_int (v *ℤ pos 10 +ℤ pos c -ℤ pos 48) else v) s

unfoldable pub get_nmdm_number : Option Str → ℤ
unfolding read_digits
get_nmdm_number none = negsuc 0
get_nmdm_number (some p) = read_digits (pos 0) p

-- The loops that take the maximum.
unfoldable pub max_number : List (Option Str) → ℤ → ℤ
unfolding get_nmdm_number
max_number [] m = m
max_number (p ∷ ps) m = max_number ps (max_ℤ (get_nmdm_number p) m)

-- The com ports that the machines have or ask for, in the order of the first loop.
unfoldable pub used_ports : List VmEntry → List (Option Str)
used_ports [] = []
used_ports (e ∷ es) = e.conf.conf.comport ∷ e.vm.assigned_comport ∷ used_ports es

unfoldable pub device_names : List Str → List (Option Str)
device_names [] = []
device_names (d ∷ ds) = some d ∷ device_names ds

-- The number of the new device, an `int` as its parts are. `names` are the files nmdm*B of /dev.
unfoldable pub new_number : ℤ → List (Option Str) → List Str → ℤ
unfolding max_number device_names to_int ◌+ℤ◌ ◌-ℤ◌
new_number offset used names =
    let max = max_number (device_names names) (max_number used (negsuc 0)) in
    let least = to_int (offset -ℤ pos 1) in
    to_int ((if ltb_ℤ max least then least else max) +ℤ pos 1)

unfoldable pub device_path : ℤ → Str
device_path n = codes "/dev/nmdm" ++ show_int n ++ codes "B"

pick_port : Env → ℤ → List (Option Str) → Vm → Option (List Str) → Bool × Vm
unfolding new_number device_path
pick_port env offset used vm none = (false, vm)
pick_port env offset used vm (some names) =
    if env.stat
    then (true, record vm { assigned_comport = some (device_path (new_number offset used names)) })
    else (false, vm)

ask_port : Env → ℤ → List (Option Str) → Vm → Option Str → Option Str → Bool × Vm
unfolding pick_port
ask_port env offset used vm none assigned = (true, vm)
ask_port env offset used vm (some port) (some a) = (true, vm)
ask_port env offset used vm (some port) none =
    if case_eq port (codes "auto")
    then pick_port env offset used vm env.devices
    else (true, record vm { assigned_comport = some port })

unfoldable pub assign_comport : Env → ℤ → List (Option Str) → VmConf → Vm → Bool × Vm
unfolding ask_port
assign_comport env offset used conf vm =
    ask_port env offset used vm conf.comport vm.assigned_comport
