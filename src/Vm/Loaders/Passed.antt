-- ===== src/Vm/Loaders/Passed.antt =====
-- What the loaders are passed.
use bmd.Prelude.{◌≡◌, some, Str, All, if◌then◌else◌}
use bmd.Conf.{VmConf}
use bmd.Vm.{Vm}
use bmd.Vm.Split.Lines.{IsLine, not_empty, split_args-write_lines}
use bmd.Vm.Loaders.{bhyveload_lines, bhyveload_args, first_iso, first_disk, grub_lines, grub_args}

-- Where no value holds a newline and there is something to boot, both loaders are passed the
-- arguments that are written for them, in their order, less those that are empty.
pub loaders_passed :
    (conf : VmConf) (vm : Vm) (boot : Str)
    → (if conf.install then first_iso conf.isoes else first_disk conf.disks) ≡ some boot
    → All IsLine (bhyveload_lines conf vm boot)
    → All IsLine (grub_lines conf vm)
    → (bhyveload_args conf vm ≡ some (not_empty (bhyveload_lines conf vm boot)))
      × (grub_args conf vm ≡ some (not_empty (grub_lines conf vm)))
unfolding bhyveload_args grub_args
loaders_passed conf vm boot e h k = (
  rw (e, bhyveload_args) (split_args-write_lines (bhyveload_lines conf vm boot) h),
  split_args-write_lines (grub_lines conf vm) k,
)
