-- ===== src/Vm/Loaders.antt =====
-- The arguments of the loaders bhyveload and grub-bhyve, and the commands that grub reads, as vm.c
-- writes them.
pub mod Passed
use bmd.Prelude.{
  Bool, true, false, Option, none, some, List, [], ◌∷◌, ◌++◌, Str, codes, case_eq, strip_prefix,
  if◌then◌else◌,
}
use bmd.Conf.{VmConf, DiskConf, IsoConf}
use bmd.Vm.{Vm}
use bmd.Vm.Args.{or_null}
use bmd.Vm.Split.{split_args, write_lines}

abbrev pub lines_if : Bool → List Str → List Str
lines_if b ls = if b then ls else []

-- The loop over `bhyveload_envs`.
pub env_lines : List Str → List Str
env_lines [] = []
env_lines (e ∷ es) = codes "-e" ∷ e ∷ env_lines es

pub loader_lines : Option Str → List Str
loader_lines none = []
loader_lines (some l) = codes "-l" ∷ l ∷ []

abbrev pub first_iso : List IsoConf → Option Str
first_iso [] = none
first_iso (i ∷ is) = some i.path

abbrev pub first_disk : List DiskConf → Option Str
first_disk [] = none
first_disk (d ∷ ds) = some d.path

pub stdio_or : Option Str → Str
stdio_or none = codes "stdio"
stdio_or (some port) = port

-- `boot` is the image or the disk.
unfoldable pub bhyveload_lines : VmConf → Vm → Str → List Str
unfolding env_lines loader_lines stdio_or
bhyveload_lines conf vm boot =
    codes "/usr/sbin/bhyveload"
    ∷ (lines_if conf.wired_memory (codes "-S" ∷ [])
        ++ (lines_if conf.single_user (codes "-e" ∷ codes "boot_single=YES" ∷ [])
            ++ (env_lines conf.bhyveload_envs
                ++ (loader_lines conf.bhyveload_loader
                    ++ codes "-c"
                      ∷ stdio_or vm.assigned_comport
                      ∷ codes "-m"
                      ∷ or_null conf.memory
                      ∷ codes "-d"
                      ∷ boot
                      ∷ conf.name
                      ∷ []))))

-- The vector of the child of bhyve_load. `none`: the child ends by a signal, since there is no image
-- or disk to boot.
unfoldable pub bhyveload_args : VmConf → Vm → Option (List Str)
unfolding split_args write_lines bhyveload_lines
bhyveload_args conf vm =
    elim (if conf.install then first_iso conf.isoes else first_disk conf.disks) [
      | none ↦ none
      | some boot ↦ split_args (write_lines (bhyveload_lines conf vm boot))
    ]

pub root_device : Bool → Option Str → Str
root_device install partition =
    if install
    then codes "cd0"
    else elim partition [ none ↦ codes "hd0,1" | some p ↦ codes "hd0," ++ p ]

unfoldable pub grub_lines : VmConf → Vm → List Str
unfolding root_device
grub_lines conf vm =
    codes "/usr/local/sbin/grub-bhyve"
    ∷ (lines_if conf.wired_memory (codes "-S" ∷ [])
        ++ codes "-r"
          ∷ root_device conf.install conf.grub_run_partition
          ∷ codes "-M"
          ∷ or_null conf.memory
          ∷ codes "-m"
          ∷ or_null vm.mapfile
          ∷ conf.name
          ∷ [])

-- The vector of the child of grub_load.
unfoldable pub grub_args : VmConf → Vm → Option (List Str)
unfolding split_args write_lines grub_lines
grub_args conf vm = split_args (write_lines (grub_lines conf vm))

boot_line : Str
boot_line = newline_then (codes "boot")
  where
    newline_then : Str → Str
    newline_then s = 10 ∷ (s ++ 10 ∷ [])

-- The names of the commands that take the option `-s` of the single user mode.
single_user : List Str → Str → Option Str
single_user [] t = none
single_user (p ∷ ps) t = elim (strip_prefix p t) [
  | none ↦ single_user ps t
  | some rest ↦ some (p ++ codes "-s " ++ rest)
]

pub given_command : Bool → Str → Str
unfolding single_user boot_line strip_prefix
given_command single t =
    elim (if single then single_user (codes "kopenbsd " ∷ codes "knetbsd " ∷ []) t else none) [
      | none ↦ t ++ boot_line
      | some c ↦ c ++ boot_line
    ]

pub command_for : Option Str → VmConf → Option Str → Option Str
unfolding given_command case_eq
command_for inspected conf none = none
command_for inspected conf (some t) =
    if case_eq t (codes "auto") then inspected else some (given_command conf.single_user t)

-- `inspected` is what inspect returns for the configuration.
unfoldable pub create_load_command : Option Str → VmConf → Option Str
unfolding command_for
create_load_command inspected conf =
    command_for inspected conf (if conf.install then conf.installcmd else conf.loadcmd)
