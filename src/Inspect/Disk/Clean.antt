-- ===== src/Inspect/Disk/Clean.antt =====
-- What an inspection leaves behind.
use bmd.Prelude.{
  ℕ, ◌≡◌, refl, ap, ◌∙◌, if_both, Option-cases, Bool, true, false, is_some, show_nat, strip_prefix,
  inl, inr, ◌&&◌, Option, none, some, List, [], ◌∷◌, ◌++◌, Str, codes, arith,
}
use bmd.Conf.{VmConf}
use bmd.Inspect.{
  Effect, Inspection, InspectEnv, attach_unit, or_else_try, join_path, first_iso, inspect_iso_image,
}
use bmd.Inspect.Disk.{
  mount_partition, mount_in, mount_blockdev, after_mount, with_blockdev, file_image, disk_image,
  first_disk, new_inspection, finish, inspect, inspect_disk_image, inspect_netbsd_disk,
  inspect_openbsd_disk, openbsd_kernels, inspect_openbsd_partition,
}
use bmd.Inspect.Grub.{with_command, inspect_with_grub}
use bmd.Inspect.Held.{
  nothing_held, step, step_from, held, with_dir, HasHeld, Keeps, or_else_try-Keeps, detached_lem,
  mounted-HasHeld, attach-HasHeld, and_undo-held,
}
use bmd.Inspect.Held.Iso.{iso_image-held}
use bmd.Inspect.Names.{match_diskname, split_last}

netbsd_disk-Keeps : (x : InspectEnv) (ins : Inspection) → Keeps ins (inspect_netbsd_disk x ins)
unfolding inspect_netbsd_disk
netbsd_disk-Keeps x ins = record { log = ground arith; unit = ground arith }

partition-Keeps : (ins : Inspection) → Keeps ins (false, inspect_openbsd_partition ins)
unfolding inspect_openbsd_partition
partition-Keeps ins = record { log = ground arith; unit = ground arith }

openbsd_disk-Keeps : (x : InspectEnv) (ins : Inspection) → Keeps ins (inspect_openbsd_disk x ins)
unfolding inspect_openbsd_disk openbsd_kernels
openbsd_disk-Keeps x ins =
    let same : Keeps ins (false, inspect_openbsd_partition ins) = partition-Keeps ins in
    record { log = ground (arith, same.log); unit = ground (arith, same.unit) }

-- The outcome of a mount.
abbrev Mounts : Option ℕ → Bool × Inspection → Type 0
Mounts u r = HasHeld u r.0 r.1

mount_partition-Mounts :
    (x : InspectEnv) (u : Option ℕ) (dir diskname : Str) (es : List Str) (ins : Inspection)
    → HasHeld u false ins
    → Mounts u (mount_partition x dir diskname es ins)
unfolding mount_partition
mount_partition-Mounts x u dir diskname [] ins h = h
mount_partition-Mounts x u dir diskname (e ∷ es) ins h =
    let rest = mount_partition-Mounts x u dir diskname es ins h in
    let here =
      mounted-HasHeld u (record ins { ufs_dev = some e })
        (record { effects = h.effects; unit = h.unit }) in
    if_both (Mounts u) (is_some (strip_prefix (codes ".") e)) _ _ rest (
      if_both (Mounts u) (match_diskname e diskname && x.mount_ufs (join_path dir e)) _ _ here rest)

mount_in-Mounts :
    (x : InspectEnv) (u : Option ℕ) (ins : Inspection) (at : Option (Str × Str))
    → HasHeld u false ins
    → Mounts u (mount_in x ins at)
unfolding mount_in
mount_in-Mounts x u ins none h = h
mount_in-Mounts x u ins (some ([], n)) h = h
mount_in-Mounts x u ins (some (c ∷ dir, n)) h = elim (Option-cases (x.opendir (c ∷ dir))) [
  | inl e ↦ rw (e, mount_in) h
  | inr (es, e) ↦ rw (e, mount_in) (mount_partition-Mounts x u (c ∷ dir) n es ins h)
]

after_mount-held :
    (x : InspectEnv) (u : Option ℕ) (r : Bool × Inspection)
    → Mounts u r
    → held (after_mount x r).1.log ≡ some (with_dir none false)
unfolding after_mount
after_mount-held x u (true, ins) h = and_undo-held u ins _ h (
    or_else_try-Keeps ins (inspect_openbsd_disk x) _ (openbsd_disk-Keeps x)
      (netbsd_disk-Keeps x ins))
after_mount-held x u (false, ins) h = detached_lem u ins h

with_blockdev-held :
    (x : InspectEnv) (u : Option ℕ) (ins : Inspection) (dev : Str)
    → HasHeld u false ins
    → held (with_blockdev x ins dev).1.log ≡ some (with_dir none false)
unfolding with_blockdev mount_blockdev
with_blockdev-held x u ins dev h =
    after_mount-held x u (mount_blockdev x dev (record ins { block_dev = some dev })) (
      mount_in-Mounts x u (record ins { block_dev = some dev }) (split_last b'/' dev)
        (record { effects = h.effects; unit = h.unit }))

file_image-held :
    (x : InspectEnv) (ins : Inspection) (path : Str)
    → HasHeld none false ins
    → held (file_image x ins path).1.log ≡ some (with_dir none false)
unfolding file_image
file_image-held x ins path h = elim (Option-cases (x.mdattach path)) [
  | inl e ↦ rw (e, file_image) h.effects
  | inr (u, e) ↦
      rw (e, file_image)
        (with_blockdev-held x (some u) (attach_unit u ins) (codes "/dev/md" ++ show_nat u)
          (attach-HasHeld u ins h))
]

disk_image-held :
    (x : InspectEnv) (ins : Inspection) (path : Option Str)
    → HasHeld none false ins
    → held (disk_image x ins path).1.log ≡ some (with_dir none false)
unfolding disk_image
disk_image-held x ins none h = h.effects
disk_image-held x ins (some path) h =
    if_both (λ (r : Bool × Inspection). held r.1.log ≡ some (with_dir none false))
      (is_some (strip_prefix (codes "/dev") path)) _ _ (with_blockdev-held x none ins path h)
      (file_image-held x ins path h)

new-HasHeld : (dir : Str) (conf : VmConf) → HasHeld none false (new_inspection dir conf)
unfolding held step_from step
new-HasHeld dir conf = record { effects = refl; unit = refl }

finish-held :
    (cmd : Inspection → Option Str) (r : Bool × Inspection)
    → held r.1.log ≡ some (with_dir none false)
    → held (finish cmd r).1 ≡ some nothing_held
unfolding finish held step_from step
finish-held cmd (true, ins) h = rw h refl
finish-held cmd (false, ins) h = rw h refl

with_command-log :
    (ins : Inspection) (r : Option (Option Str)) (left : Bool)
    → (with_command ins r left).1.log ≡ ins.log
unfolding with_command
with_command-log ins none left = refl
with_command-log ins (some none) left = refl
with_command-log ins (some (some cmd)) left = refl

inspect_with_grub-log :
    (spawned : Bool) (ask : Str → Option Str) (ins : Inspection)
    → (inspect_with_grub spawned ask ins).1.log ≡ ins.log
unfolding inspect_with_grub
inspect_with_grub-log false ask ins = refl
inspect_with_grub-log true ask ins = elim (Option-cases (ask (codes "ls"))) [
  | inl e ↦ rw (e, inspect_with_grub) refl
  | inr (buf, e) ↦ rw (e, inspect_with_grub) (with_command-log ins _ _)
]

grub-held :
    (g : Inspection → Bool × Inspection) (r : Bool × Inspection)
    → ((i : Inspection) → (g i).1.log ≡ i.log)
    → held r.1.log ≡ some (with_dir none false)
    → held (or_else_try g r).1.log ≡ some (with_dir none false)
unfolding or_else_try
grub-held g (true, ins) k h = h
grub-held g (false, ins) k h = ap held (k ins) ∙ h

-- Whatever the system and grub answer, an inspection follows the rules: it detaches a disk only if
-- it is attached and not mounted, removes the directory only if nothing is mounted in it, and takes
-- nothing twice. At its end it holds nothing: neither the directory nor a disk nor a mount. A call
-- that gives something back is taken to succeed, as the code takes it.
pub inspect-nothing_held :
    (x : InspectEnv) (spawned : Bool) (ask : Str → Option Str) (conf : VmConf)
    → held (inspect x (inspect_with_grub spawned ask) conf).1 ≡ some nothing_held
unfolding inspect
inspect-nothing_held x spawned ask conf = elim (Option-cases x.mkdtemp) [
  | inl e ↦ rw (e, inspect) (unfold held in refl)
  | inr (dir, e) ↦
      rw (e, inspect)
        (if_both (λ (r : Option Str × List Effect). held r.1 ≡ some nothing_held) conf.install
          (finish (λ i. i.install_cmd) (inspect_iso_image x conf (new_inspection dir conf)))
          (finish (λ i. i.load_cmd)
            (or_else_try (inspect_with_grub spawned ask)
              (inspect_disk_image x conf (new_inspection dir conf))))
          (finish-held _ _ (
            unfold inspect_iso_image in
            iso_image-held x _ (first_iso conf.isoes) (new-HasHeld dir conf)))
          (finish-held _ _ (
            grub-held _ _ (inspect_with_grub-log spawned ask) (
              unfold inspect_disk_image in
              disk_image-held x _ (first_disk conf.disks) (new-HasHeld dir conf)))))
]
