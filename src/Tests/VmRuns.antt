-- ===== src/Tests/VmRuns.antt =====
-- The arguments of bhyve and of the loaders at concrete inputs.
use bmd.Prelude.{◌≡◌, refl, true, false, none, some, [], ◌∷◌, ◌++◌, pos, codes, map, arith, case_eq}
use bmd.Conf.{HostbridgeType, VmConf}
use bmd.Vm.Args.{Args, all_devices, exec_args}
use bmd.Vm.Args.Slots.{devices, numbered, all_devices-numbered}
use bmd.Vm.Args.Given.{passed, exec_args-passed}
use bmd.Vm.Args.NoBridge.{exec_args_no_bridge}
use bmd.Vm.Split.{split_args, write_lines}
use bmd.Vm.Split.Lines.{not_empty, split_args-write_lines}
use bmd.Vm.Loaders.{bhyveload_lines, bhyveload_args, grub_lines, grub_args, create_load_command}
use bmd.Vm.Loaders.Passed.{loaders_passed}
use bmd.Vm.ErrLog.{bytes, wrote, interrupted, log_calls, write_err_log, write_err_log_once}
use bmd.Parser.Load.Checked.{IsChecked}
use bmd.Tests.Samples.{sample_conf, sample_vm}

abbrev screen_conf : VmConf
screen_conf = record sample_conf {
  fbuf = record sample_conf.fbuf { enable = pos 1 };
  mouse = true;
  hostbridge = HostbridgeType.none;
}

all_devices-numbered_example :
    all_devices screen_conf sample_vm ≡ numbered 2 (devices screen_conf sample_vm)
all_devices-numbered_example = all_devices-numbered screen_conf sample_vm

disk_slot :
    all_devices sample_conf sample_vm
    ≡ some (codes "-s") ∷ some (codes "2,virtio-blk,/vm/disk.img") ∷ []
unfolding all_devices
disk_slot = refl

sample-IsChecked : IsChecked sample_conf
sample-IsChecked = record {
  ncpu = (codes "2", refl);
  memory = (codes "2G", refl);
  loader = λ e. (codes "bhyveload", refl);
  enable = omega arith;
}

exec_args-passed_example :
    map some (passed (exec_args sample_conf sample_vm)) ++ none ∷ []
    ≡ exec_args sample_conf sample_vm
exec_args-passed_example = exec_args-passed sample_conf sample_vm sample-IsChecked

exec_args_no_bridge_example :
    (front : Args) × (rest : Args) × (exec_args screen_conf sample_vm
      ≡ front ++ some (codes "-s") ∷ some (codes "-s") ∷ some (codes "1,lpc") ∷ rest)
exec_args_no_bridge_example = exec_args_no_bridge screen_conf sample_vm refl

split_args-write_lines_example :
    split_args (write_lines (codes "a" ∷ [] ∷ codes "b" ∷ []))
    ≡ some (not_empty (codes "a" ∷ [] ∷ codes "b" ∷ []))
split_args-write_lines_example =
    split_args-write_lines (codes "a" ∷ [] ∷ codes "b" ∷ []) (omega arith)

abbrev disk_conf : VmConf
disk_conf = record sample_conf { install = false }

loaders_passed_example :
    (bhyveload_args disk_conf sample_vm
      ≡ some (not_empty (bhyveload_lines disk_conf sample_vm (codes "/vm/disk.img"))))
    × (grub_args disk_conf sample_vm ≡ some (not_empty (grub_lines disk_conf sample_vm)))
unfolding bhyveload_lines grub_lines
loaders_passed_example =
    loaders_passed disk_conf sample_vm (codes "/vm/disk.img") refl (omega arith) (omega arith)

write_err_log_once_example :
    log_calls
      ((7, bytes 12, wrote 12) ∷ (8, bytes 30, wrote 30) ∷ [])
      (write_err_log 7 (bytes 20) interrupted (record sample_vm { logfd = some 5 })).0
    ≡ 0
write_err_log_once_example =
    write_err_log_once 7 20 interrupted ((7, bytes 12, wrote 12) ∷ (8, bytes 30, wrote 30) ∷ [])
      (record sample_vm { logfd = some 5 }) (λ e. cc e)

single_user_boot :
    create_load_command none (record sample_conf {
      install = false;
      single_user = true;
      loadcmd = some (codes "knetbsd -h com0 /netbsd");
    })
    ≡ some (codes "knetbsd -s -h com0 /netbsd" ++ 10 ∷ (codes "boot" ++ 10 ∷ []))
unfolding create_load_command case_eq
single_user_boot = refl
