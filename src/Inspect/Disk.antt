-- ===== src/Inspect/Disk.antt =====
-- The inspection of a disk of inspect.c, and the function inspect.
pub mod Clean
use bmd.Prelude.{
  ℕ, ◌==◌, Bool, true, false, not, ◌&&◌, Option, none, some, List, [], ◌∷◌, ◌++◌, Str, codes,
  is_some, strip_prefix, show_nat, if◌then◌else◌,
}
use bmd.Conf.{DiskConf, VmConf}
use bmd.Inspect.{
  Inspection, InspectEnv, Effect, note, made_dir, removed_dir, mounted, unmount, mddetach,
  attach_unit, or_else_try, and_undo, join_path, boot_text, netbsd_kernel, openbsd_kernel,
  openbsd_upgrade_kernel, inspect_iso_image,
}
use bmd.Inspect.Names.{match_diskname, split_last, last_number}

-- The loop over the partitions of the disk: the first that can be mounted.
pub mount_partition : InspectEnv → Str → Str → List Str → Inspection → Bool × Inspection
unfolding match_diskname strip_prefix
mount_partition x dir diskname [] ins = (false, ins)
mount_partition x dir diskname (e ∷ es) ins =
    let rest = mount_partition x dir diskname es ins in
    if is_some (strip_prefix (codes ".") e)
    then rest
    else if match_diskname e diskname && x.mount_ufs (join_path dir e)
    then (true, note mounted (record ins { ufs_dev = some e }))
    else rest

pub mount_in : InspectEnv → Inspection → Option (Str × Str) → Bool × Inspection
unfolding mount_partition
mount_in x ins none = (false, ins)
mount_in x ins (some ([], diskname)) = (false, ins)
mount_in x ins (some (c ∷ dir, diskname)) = elim (x.opendir (c ∷ dir)) [
  | none ↦ (false, ins)
  | some es ↦ mount_partition x (c ∷ dir) diskname es ins
]

-- The directory and the name of the device are divided at the last slash.
unfoldable pub mount_blockdev : InspectEnv → Str → Inspection → Bool × Inspection
unfolding mount_in split_last
mount_blockdev x block_dev ins = mount_in x ins (split_last b'/' block_dev)

-- The number behind the last `p`, if it is not the first byte of the name.
pub partition_of : Option (Str × ℕ × Str) → Str
partition_of none = codes "1"
partition_of (some ([], c, n)) = codes "1"
partition_of (some (a ∷ s, c, n)) = if c == b'p' then n else codes "1"

unfoldable pub inspect_openbsd_partition : Inspection → Inspection
unfolding partition_of last_number
inspect_openbsd_partition ins = elim ins.ufs_dev [
  | none ↦ record ins { grub_run_partition = some (codes "1") }
  | some dev ↦ record ins { grub_run_partition = some (partition_of (last_number dev)) }
]

pub part_text : Option Str → Str
part_text none = codes "(null)"
part_text (some p) = p

-- `options` stands behind the command's name.
openbsd_load : Str → Inspection → Str → Inspection
unfolding part_text
openbsd_load options ins kernel = record ins {
  load_cmd = some (
      codes "kopenbsd "
      ++ (options
          ++ (codes "-h com0 -r sd0a (hd0,"
              ++ (part_text ins.grub_run_partition ++ (codes ")/" ++ (kernel ++ boot_text))))));
}

pub openbsd_kernels : InspectEnv → Inspection → Bool × Inspection
unfolding openbsd_load
openbsd_kernels x ins =
    if x.is_file (join_path ins.mount_point openbsd_upgrade_kernel)
    then (true, openbsd_load [] ins openbsd_upgrade_kernel)
    else if x.is_file (join_path ins.mount_point openbsd_kernel)
    then (
      true,
      openbsd_load (if ins.single_user then codes "-s " else codes " ") ins openbsd_kernel,
    )
    else (false, ins)

unfoldable pub inspect_openbsd_disk : InspectEnv → Inspection → Bool × Inspection
unfolding inspect_openbsd_partition openbsd_kernels
inspect_openbsd_disk x ins = openbsd_kernels x (inspect_openbsd_partition ins)

unfoldable pub inspect_netbsd_disk : InspectEnv → Inspection → Bool × Inspection
inspect_netbsd_disk x ins =
    if x.is_file (join_path ins.mount_point netbsd_kernel)
    then (
      true,
      record ins {
        load_cmd = some (
            codes "knetbsd "
            ++ ((if ins.single_user then codes "-s " else [])
                ++ (codes "-h com0 -r dk0a /" ++ (netbsd_kernel ++ boot_text))));
      },
    )
    else (false, ins)

-- What follows the mount.
pub after_mount : InspectEnv → Bool × Inspection → Bool × Inspection
unfolding and_undo or_else_try inspect_netbsd_disk inspect_openbsd_disk
after_mount x (true, ins) =
    and_undo (λ i. mddetach (unmount i))
      (or_else_try (inspect_openbsd_disk x) (inspect_netbsd_disk x ins))
after_mount x (false, ins) = (false, mddetach ins)

-- From the block device on.
pub with_blockdev : InspectEnv → Inspection → Str → Bool × Inspection
unfolding mount_blockdev after_mount
with_blockdev x ins dev = after_mount x (mount_blockdev x dev (record ins { block_dev = some dev }))

pub file_image : InspectEnv → Inspection → Str → Bool × Inspection
unfolding with_blockdev attach_unit show_nat
file_image x ins path = elim (x.mdattach path) [
  | none ↦ (false, ins)
  | some u ↦ with_blockdev x (attach_unit u ins) (codes "/dev/md" ++ show_nat u)
]

pub disk_image : InspectEnv → Inspection → Option Str → Bool × Inspection
unfolding with_blockdev file_image strip_prefix
disk_image x ins none = (false, ins)
disk_image x ins (some path) =
    if is_some (strip_prefix (codes "/dev") path)
    then with_blockdev x ins path
    else file_image x ins path

abbrev pub first_disk : List DiskConf → Option Str
first_disk [] = none
first_disk (d ∷ ds) = some d.path

unfoldable pub inspect_disk_image : InspectEnv → VmConf → Inspection → Bool × Inspection
unfolding disk_image
inspect_disk_image x conf ins = disk_image x ins (first_disk conf.disks)

abbrev pub new_inspection : Str → VmConf → Inspection
new_inspection dir conf = record {
  single_user = conf.single_user;
  md_unit = none;
  mount_point = dir;
  block_dev = none;
  ufs_dev = none;
  install_cmd = none;
  load_cmd = none;
  grub_run_partition = none;
  log = made_dir ∷ [];
}

-- What is left of an inspection: the command, and what was done.
pub finish : (Inspection → Option Str) → Bool × Inspection → Option Str × List Effect
finish cmd (true, ins) = (cmd ins, removed_dir ∷ ins.log)
finish cmd (false, ins) = (none, removed_dir ∷ ins.log)

-- `with_grub` is inspect_with_grub.
unfoldable pub inspect :
    InspectEnv → (Inspection → Bool × Inspection) → VmConf → Option Str × List Effect
unfolding finish inspect_iso_image inspect_disk_image or_else_try
inspect x with_grub conf = elim x.mkdtemp [
  | none ↦ (none, [])
  | some dir ↦
      if conf.install
      then finish (λ i. i.install_cmd) (inspect_iso_image x conf (new_inspection dir conf))
      else finish (λ i. i.load_cmd)
          (or_else_try with_grub (inspect_disk_image x conf (new_inspection dir conf)))
]
