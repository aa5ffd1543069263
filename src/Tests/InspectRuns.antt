-- ===== src/Tests/InspectRuns.antt =====
-- Inspections at concrete inputs.
use bmd.Prelude.{
  ◌≡◌, refl, true, false, none, some, List, [], ◌∷◌, ◌++◌, Option, Str, codes, str_eq, arith,
}
use bmd.Inspect.{
  InspectEnv, mddetach, removed_dir, made_dir, mounted, unmounted, attached, detached,
}
use bmd.Inspect.Names.{match_version_number, is_digit}
use bmd.Inspect.Disk.{inspect}
use bmd.Inspect.Held.{held, nothing_held}
use bmd.Inspect.Disk.Clean.{inspect-nothing_held}
use bmd.Inspect.Grub.{inspect_with_grub, look_for_filename, starts_after}
use bmd.Inspect.Grub.Csi.{strip_csi, is_param, has_byte}
use bmd.Inspect.Grub.Plain.{Item, shown, sequence, write_items, shown_bytes, strip_csi-write_items}
use bmd.Inspect.Grub.Listed.{look_for_filename-longer_first}
use bmd.Tests.Samples.{sample_conf}

-- A disk image with OpenBSD in its second partition.
abbrev sample_env : InspectEnv
unfolding str_eq
sample_env = record {
  mkdtemp = some (codes "/tmp/i");
  mdattach = λ path. some 3;
  mount_iso = λ u. false;
  mount_ufs = λ dev. str_eq dev (codes "/dev/md3p2");
  opendir = λ dir. some (codes "md3p1" ∷ codes "md3p2" ∷ []);
  is_directory = λ dir name. false;
  is_file = λ path. str_eq path (codes "/tmp/i/bsd");
}

abbrev ask_nothing : Str → Option Str
ask_nothing command = none

disk_command :
    inspect sample_env
      (inspect_with_grub false ask_nothing)
      (record sample_conf { install = false })
    ≡ (
      some (codes "kopenbsd  -h com0 -r sd0a (hd0,2)/bsd" ++ 10 ∷ (codes "boot" ++ 10 ∷ [])),
      removed_dir ∷ detached 3 ∷ unmounted ∷ mounted ∷ attached 3 ∷ made_dir ∷ [],
    )
unfolding inspect inspect_with_grub sample_env mddetach
disk_command = refl

inspect-nothing_held_example :
    held
      (inspect sample_env
        (inspect_with_grub false ask_nothing)
        (record sample_conf { install = false })).1
    ≡ some nothing_held
inspect-nothing_held_example =
    inspect-nothing_held sample_env false ask_nothing (record sample_conf { install = false })

version_number : match_version_number (codes "7.4") ≡ true
unfolding match_version_number is_digit
version_number = refl

-- What grub writes as it clears a line.
abbrev cleared_line : List Item
cleared_line = sequence (codes "1;24") b'H' ∷ shown b'l' ∷ shown b's' ∷ sequence [] b'K' ∷ []

strip_csi-write_items_example : strip_csi (write_items cleared_line) ≡ shown_bytes cleared_line
unfolding is_param is_digit has_byte
strip_csi-write_items_example =
    strip_csi-write_items cleared_line
      (((refl, (refl, (refl, (refl, tt)))), refl), (omega arith, (omega arith, ((tt, refl), tt))))

look_for_filename-longer_first_example :
    look_for_filename (codes "bsd" ++ codes ".rd bsd") (codes "bsd") ≡ false
unfolding starts_after
look_for_filename-longer_first_example =
    look_for_filename-longer_first (codes "bsd") b'.' (codes "rd bsd") refl

-- Grub lists the slices of a disk, of which the first has a kernel.
abbrev answer : Str → Option Str
unfolding str_eq
answer command = elim (str_eq command (codes "ls")) [
  | true ↦ some (codes "(hd0)(hd0,openbsd1)")
  | false ↦ some (codes "bsd netbsd")
]

grub_command :
    (inspect
      (record sample_env { mount_ufs = λ dev. false })
      (inspect_with_grub true answer)
      (record sample_conf { install = false })).0
    ≡ some (codes "kopenbsd -h com0 -r sd0a (hd0,openbsd1)/bsd" ++ 10 ∷ (codes "boot" ++ 10 ∷ []))
unfolding inspect inspect_with_grub sample_env mddetach answer
grub_command = refl
