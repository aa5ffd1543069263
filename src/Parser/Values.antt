-- ===== src/Parser/Values.antt =====
-- The functions of parser.c that read the value of a parameter. `none` is -1.
pub mod Typed
use bmd.Prelude.{
  ℕ, ◌+◌, ℤ, pos, to_id, Bool, true, false, not, ◌&&◌, ◌||◌, ◌==◌, leb, Option, none, some, List,
  [], ◌∷◌, ◌++◌, Str, codes, case_eq, strip_prefix, split_at, is_some, if◌then◌else◌,
}
use bmd.Conf.{Boot, HostbridgeType, Fbuf, VmConf}
use bmd.Conf.Vars.{Variables, set_var}
use bmd.Conf.Setters.{
  set_loader, set_memory_size, set_ncpu, set_owner, set_group, set_boot, set_hostbridge,
  set_backend, set_name, set_fbuf_res,
}
use bmd.Conf.Create.{
  add_passthru_conf, add_disk_conf, add_iso_conf, add_net_conf, add_bhyveload_env, add_bhyve_env,
}
use bmd.Parser.Numbers.{strtol, parse_int, is_end}

-- What the parser asks of the system and of the plugins.
pub record ParserEnv : Type 0 where
  pub getpwnam : Str → Option ℕ
  pub getgrnam : Str → Option ℕ
  -- whether is_in_group finds the user in the group
  pub in_group : Str → ℕ → Bool
  pub method_exists : Str → Bool

unfoldable pub parse_name : VmConf → Str → Option VmConf
unfolding set_name set_var
parse_name conf val =
    some (set_name (record conf { vars = (set_var conf.vars (codes "NAME") val).1 }) val)

unfoldable pub parse_ncpu : VmConf → Str → Option VmConf
unfolding set_ncpu parse_int
parse_ncpu conf val = elim (parse_int val) [ none ↦ none | some n ↦ some (set_ncpu conf n) ]

is_unit : ℕ → Bool
is_unit c =
    c == b'T'
    || c == b't'
    || c == b'G'
    || c == b'g'
    || c == b'M'
    || c == b'm'
    || c == b'K'
    || c == b'k'

unfoldable pub parse_memory : VmConf → Str → Option VmConf
unfolding set_memory_size strtol is_unit
parse_memory conf val = elim ((strtol 10 val).1) [
  | [] ↦ some (set_memory_size conf val)
  | c ∷ p ↦ if is_unit c && is_end p then some (set_memory_size conf val) else none
]

is_devid : Str → Bool
is_devid [] = true
is_devid (c ∷ s) = (c == b'/' || (leb b'0' c && leb c b'9')) && is_devid s

unfoldable pub parse_passthru : VmConf → Str → Option VmConf
unfolding is_devid add_passthru_conf
parse_passthru conf val = if is_devid val then some (add_passthru_conf conf val) else none

-- `strncmp(val, *p, n) == 0 && val[n] == ':'`
unfoldable pub typed : Str → Str → Option Str
unfolding strip_prefix
typed type val = strip_prefix (type ++ codes ":") val

-- The first of the types that the value begins with, and the rest; else the default type.
unfoldable pub split_type : List Str → Str → Str → Str × Str
unfolding typed
split_type [] dflt val = (dflt, val)
split_type (t ∷ ts) dflt val =
    let rest = split_type ts dflt val in elim (typed t val) [ some v ↦ (t, v) | none ↦ rest ]

abbrev pub disk_types : List Str
disk_types = codes "ahci-hd" ∷ codes "virtio-blk" ∷ codes "nvme" ∷ []

abbrev pub iso_types : List Str
iso_types = codes "ahci-cd" ∷ []

abbrev pub net_types : List Str
net_types = codes "virtio-net" ∷ codes "e1000" ∷ []

unfoldable pub parse_disk : VmConf → Str → Option VmConf
unfolding split_type add_disk_conf
parse_disk conf val =
    let (type, path) = split_type disk_types (codes "virtio-blk") val in
    some (add_disk_conf conf type path)

unfoldable pub parse_iso : VmConf → Str → Option VmConf
unfolding split_type add_iso_conf
parse_iso conf val =
    let (type, path) = split_type iso_types (codes "ahci-cd") val in
    some (add_iso_conf conf type path)

unfoldable pub parse_net : VmConf → Str → Option VmConf
unfolding split_type add_net_conf
parse_net conf val =
    let (type, bridge) = split_type net_types (codes "virtio-net") val in
    some (add_net_conf conf type bridge)

unfoldable pub one_of : List Str → Str → Bool
unfolding case_eq
one_of [] val = false
one_of (v ∷ vs) val = case_eq val v || one_of vs val

unfoldable pub parse_loader : VmConf → Str → Option VmConf
unfolding one_of set_loader
parse_loader conf val =
    if one_of (codes "uefi" ∷ codes "csm" ∷ codes "bhyveload" ∷ codes "grub" ∷ []) val
    then some (set_loader conf val)
    else none

unfoldable pub parse_bhyveload_env : VmConf → Str → Option VmConf
unfolding split_at add_bhyveload_env
parse_bhyveload_env conf val =
    if is_some (split_at b'=' val) then some (add_bhyveload_env conf val) else none

unfoldable pub parse_bhyve_env : VmConf → Str → Option VmConf
unfolding split_at add_bhyve_env
parse_bhyve_env conf val =
    if is_some (split_at b'=' val) then some (add_bhyve_env conf val) else none

unfoldable pub parse_boolean : Str → Bool
unfolding case_eq
parse_boolean value = case_eq value (codes "yes") || case_eq value (codes "true")

-- Whatever is none of the words means NO.
unfoldable pub parse_boot : VmConf → Str → Option VmConf
unfolding case_eq set_boot
parse_boot conf val = some (
    set_boot conf (
      if case_eq val (codes "yes") || case_eq val (codes "true")
      then Boot.yes
      else if case_eq val (codes "oneshot")
      then Boot.oneshot
      else if case_eq val (codes "always")
      then Boot.always
      else Boot.no))

unfoldable pub parse_hostbridge : VmConf → Str → Option VmConf
unfolding case_eq set_hostbridge
parse_hostbridge conf val =
    if case_eq val (codes "none")
    then some (set_hostbridge conf HostbridgeType.none)
    else if case_eq val (codes "standard") || case_eq val (codes "intel")
    then some (set_hostbridge conf HostbridgeType.intel)
    else if case_eq val (codes "amd")
    then some (set_hostbridge conf HostbridgeType.amd)
    else none

unfoldable pub parse_backend : ParserEnv → VmConf → Str → Option VmConf
unfolding set_backend
parse_backend x conf val = if x.method_exists val then some (set_backend conf val) else none

set_res : Fbuf → Option ℤ → Option ℤ → Option Fbuf
unfolding set_fbuf_res
set_res fb (some w) (some h) = some (set_fbuf_res fb w h)
set_res fb _ _ = none

unfoldable pub parse_graphics_res : Fbuf → Str → Option Fbuf
unfolding split_at parse_int set_res
parse_graphics_res fb val = elim (split_at b'x' val) [
  | none ↦ none
  | some (w, h) ↦ set_res fb (parse_int w) (parse_int h)
]
