-- ===== src/Inspect.antt =====
-- inspect.c: the inspection of a disk image or an ISO image, which finds the commands that boot it.
-- What the system answers is a record; what is attached and mounted is kept in a list, the last one
-- first. Memory is given.
pub mod Names
pub mod Held
pub mod Disk
pub mod Grub
use bmd.Prelude.{
  ℕ, ◌==◌, Bool, true, false, not, ◌&&◌, ◌||◌, Option, none, some, List, [], ◌∷◌, ◌++◌, Str, codes,
  is_some, strip_prefix, show_nat, if◌then◌else◌,
}
use bmd.Conf.{DiskConf, IsoConf, VmConf}
use Names.{match_version_number, match_diskname, split_last, last_number}

pub data Effect : Type 0 where
  made_dir removed_dir mounted unmounted : Effect
  attached detached : ℕ → Effect

-- `struct inspection`. `md_unit` is `none` for -1; `log` is what was done.
pub record Inspection : Type 0 where
  pub single_user : Bool
  pub md_unit : Option ℕ
  pub mount_point : Str
  pub block_dev : Option Str
  pub ufs_dev : Option Str
  pub install_cmd : Option Str
  pub load_cmd : Option Str
  pub grub_run_partition : Option Str
  pub log : List Effect

-- What the system answers: mkdtemp(3), the memory disk of a file, nmount(2), the names in a
-- directory, and the kind of a file.
pub record InspectEnv : Type 0 where
  pub mkdtemp : Option Str
  pub mdattach : Str → Option ℕ
  pub mount_iso : ℕ → Bool
  pub mount_ufs : Str → Bool
  pub opendir : Str → Option (List Str)
  pub is_directory : Str → Str → Bool
  pub is_file : Str → Bool

abbrev pub note : Effect → Inspection → Inspection
note e ins = record ins { log = e ∷ ins.log }

abbrev pub boot_text : Str
boot_text = 10 ∷ (codes "boot" ++ 10 ∷ [])

abbrev pub netbsd_kernel : Str
netbsd_kernel = codes "netbsd"

abbrev pub openbsd_kernel : Str
openbsd_kernel = codes "bsd"

abbrev pub openbsd_ramdisk_kernel : Str
openbsd_ramdisk_kernel = codes "bsd.rd"

abbrev pub openbsd_upgrade_kernel : Str
openbsd_upgrade_kernel = codes "bsd.upgrade"

abbrev pub join_path : Str → Str → Str
join_path dir name = dir ++ (codes "/" ++ name)

unfoldable pub inspect_netbsd_iso : InspectEnv → Inspection → Bool × Inspection
inspect_netbsd_iso x ins =
    if x.is_file (join_path ins.mount_point netbsd_kernel)
    then (
      true,
      record ins {
        install_cmd = some (codes "knetbsd -h com0 -r cd0a /" ++ (netbsd_kernel ++ boot_text));
      },
    )
    else (false, ins)

-- The first name that does not begin with a dot and passes the test.
unfoldable pub first_entry : (Str → Bool) → List Str → Option Str
unfolding strip_prefix
first_entry test [] = none
first_entry test (e ∷ es) =
    let rest = first_entry test es in
    if not (is_some (strip_prefix (codes ".") e)) && test e then some e else rest

unfoldable pub entry_of : InspectEnv → Str → (Str → Bool) → Option Str
unfolding first_entry
entry_of x dir test = elim (x.opendir dir) [ none ↦ none | some es ↦ first_entry test es ]

-- `path` is the kernel's place below the mount point.
pub openbsd_iso_at : InspectEnv → Inspection → Str → Bool × Inspection
openbsd_iso_at x ins path =
    if x.is_file (ins.mount_point ++ path)
    then (
      true,
      record ins { install_cmd = some (codes "kopenbsd -h com0 " ++ (path ++ boot_text)) },
    )
    else (false, ins)

pub openbsd_iso_version : InspectEnv → Inspection → Str → Bool × Inspection
unfolding entry_of openbsd_iso_at
openbsd_iso_version x ins version =
    let dir = join_path ins.mount_point version in
    elim (entry_of x dir (x.is_directory dir)) [
      | none ↦ (false, ins)
      | some arch ↦
          openbsd_iso_at x ins (
            codes "/"
            ++ (version ++ (codes "/" ++ (arch ++ (codes "/" ++ openbsd_ramdisk_kernel)))))
    ]

-- A directory that is named for a version, in it the first directory, and in this the kernel.
unfoldable pub inspect_openbsd_iso : InspectEnv → Inspection → Bool × Inspection
unfolding entry_of openbsd_iso_version match_version_number
inspect_openbsd_iso x ins =
    elim (entry_of x ins.mount_point
      (λ e. x.is_directory ins.mount_point e && match_version_number e)) [
        | none ↦ (false, ins)
        | some version ↦ openbsd_iso_version x ins version
      ]

-- `if (f(ins) < 0 && g(ins) < 0) goto err2`, and what is undone in both cases.
pub or_else_try : (Inspection → Bool × Inspection) → Bool × Inspection → Bool × Inspection
or_else_try g (true, ins) = (true, ins)
or_else_try g (false, ins) = g ins

pub and_undo : (Inspection → Inspection) → Bool × Inspection → Bool × Inspection
and_undo undo (rc, ins) = (rc, undo ins)

abbrev pub unmount : Inspection → Inspection
unmount ins = note unmounted ins

pub mddetach_unit : Option ℕ → Inspection → Inspection
mddetach_unit none ins = ins
mddetach_unit (some u) ins = note (detached u) ins

unfoldable pub mddetach : Inspection → Inspection
unfolding mddetach_unit
mddetach ins = mddetach_unit ins.md_unit ins

pub attach_unit : ℕ → Inspection → Inspection
attach_unit u ins = note (attached u) (record ins { md_unit = some u })

-- The image is attached as the memory disk `u`.
pub iso_attached : InspectEnv → ℕ → Inspection → Bool × Inspection
unfolding and_undo or_else_try inspect_netbsd_iso inspect_openbsd_iso
iso_attached x u ins =
    if x.mount_iso u
    then and_undo (λ i. mddetach (unmount i))
        (or_else_try (inspect_openbsd_iso x) (inspect_netbsd_iso x (note mounted ins)))
    else (false, mddetach ins)

pub iso_image : InspectEnv → Inspection → Option Str → Bool × Inspection
unfolding iso_attached attach_unit
iso_image x ins none = (false, ins)
iso_image x ins (some path) = elim (x.mdattach path) [
  | none ↦ (false, ins)
  | some u ↦ iso_attached x u (attach_unit u ins)
]

abbrev pub first_iso : List IsoConf → Option Str
first_iso [] = none
first_iso (i ∷ is) = some i.path

unfoldable pub inspect_iso_image : InspectEnv → VmConf → Inspection → Bool × Inspection
unfolding iso_image
inspect_iso_image x conf ins = iso_image x ins (first_iso conf.isoes)
