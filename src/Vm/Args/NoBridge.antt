-- ===== src/Vm/Args/NoBridge.antt =====
-- The arguments of a machine without a host bridge.
use bmd.Prelude.{◌≡◌, none, some, [], ◌∷◌, ◌++◌, codes}
use mathlib.Core.List.{append_assoc}
use bmd.Conf.{HostbridgeType, VmConf}
use bmd.Vm.{Vm}
use bmd.Vm.Args.{
  Args, args_if, option_args, loader_args, hostbridge_args, comport_args, option_part, all_devices,
  exec_args,
}

-- What stands before the host bridge.
before : VmConf → Vm → Args
before conf vm =
    (some (codes "/usr/sbin/bhyve")
      ∷ some (codes "-A")
      ∷ some (codes "-H")
      ∷ some (codes "-w")
      ∷ [])
    ++ (args_if conf.utctime (some (codes "-u") ∷ [])
        ++ (args_if conf.wired_memory (some (codes "-S") ∷ [])
            ++ (option_args (codes "-G") conf.debug_port
                ++ ((some (codes "-c") ∷ conf.ncpu ∷ some (codes "-m") ∷ conf.memory ∷ [])
                    ++ (comport_args vm.assigned_comport
                        ++ (option_args (codes "-K") conf.keymap
                            ++ loader_args conf.loader vm.varsfile))))))

-- Where the configuration asks for no host bridge, the option `-s` of bhyve is written twice, one
-- behind the other, so that the value of the first is the text `-s`, and `1,lpc` follows.
pub exec_args_no_bridge :
    (conf : VmConf) (vm : Vm)
    → conf.hostbridge ≡ HostbridgeType.none
    → (front : Args) × (rest : Args) × (exec_args conf vm
        ≡ front ++ some (codes "-s") ∷ some (codes "-s") ∷ some (codes "1,lpc") ∷ rest)
unfolding exec_args option_part before hostbridge_args
exec_args_no_bridge conf vm h =
    (before conf vm, all_devices conf vm ++ some conf.name ∷ none ∷ [], rw h (simp append_assoc))
