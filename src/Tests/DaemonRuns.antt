-- ===== src/Tests/DaemonRuns.antt =====
-- The daemon's operations on concrete machines.
use bmd.Prelude.{
  ◌*ℤ◌, arith, ◌≡◌, refl, true, false, Option, none, some, List, [], ◌∷◌, Str, codes, All, pos,
  strcmp, case_eq, ◌+ℤ◌, ◌-ℤ◌, show_int,
}
use mathlib.Core.Path.{subst}
use bmd.Conf.{Boot}
use bmd.Conf.Compare.{to_int, compare_vm_conf, cmp_num, compare_string}
use bmd.Vm.{State, VmMethod}
use bmd.Vm.Bhyve.{bhyve_method, acpi_poweroff_bhyve}
use bmd.Daemon.{VmConfEntry}
use bmd.Daemon.Machine.{find_method, start_virtual_machine, on_vm_exit, exited}
use bmd.Daemon.Machine.Start.{IsStarted, start_virtual_machine-IsStarted}
use bmd.Daemon.Machine.Watched.{IsBackend, bhyve_method-IsBackend}
use bmd.Daemon.Machine.Exit.{ExitOutcome, on_vm_exit-ExitOutcome}
use bmd.Daemon.Loop.{Delivery, dispatch, find_vm}
use bmd.Daemon.Loop.Fault.{is_fault, dispatch_fault}
use bmd.Daemon.Reload.{reload_virtual_machines}
use bmd.Daemon.Reload.Cover.Rounds.{HasNames, IsServed, reload_virtual_machines-All}
use bmd.Daemon.Reload.Target.{IsTarget, reload_virtual_machines-IsTarget}
use bmd.Daemon.Comport.{device_names, get_nmdm_number, assign_comport, new_number, device_path}
use bmd.Daemon.Comport.ReadBack.{int_max}
use bmd.Daemon.Comport.Fresh.{IsBelow, IsNewPort, assign_comport-IsNewPort}
use bmd.Tests.Samples.{
  sample_conf, sample_vm, sample_plugins, sample_conf_entry, sample_entry, entry_in, bhyve,
  sample_env, sample_devices, exit_event, sample_world, daemon_in,
}

found : find_method sample_plugins (codes "bhyve") ≡ some bhyve
unfolding find_method bhyve_method
found = refl

bhyve-IsBackend : IsBackend bhyve
bhyve-IsBackend = bhyve_method-IsBackend (codes "/var/cache/bmd")

only-IsBackend : (m : VmMethod) → find_method sample_plugins (codes "bhyve") ≡ some m → IsBackend m
only-IsBackend m h = subst IsBackend (cc (found, h)) bhyve-IsBackend

start_virtual_machine-IsStarted_example :
    IsStarted 4 State.terminate (start_virtual_machine sample_env [] sample_entry sample_world)
start_virtual_machine-IsStarted_example =
    start_virtual_machine-IsStarted sample_env [] sample_entry sample_world only-IsBackend

on_vm_exit-ExitOutcome_example :
    ExitOutcome sample_env []
      (exited 0)
      (entry_in State.run)
      sample_world
      State.run
      (on_vm_exit sample_env [] (exited 0) (entry_in State.run) sample_world)
on_vm_exit-ExitOutcome_example =
    on_vm_exit-ExitOutcome sample_env [] (exited 0) (entry_in State.run) sample_world
      bhyve-IsBackend only-IsBackend

abbrev delivery : Delivery
delivery = record { env = λ name. sample_env; status = exited 0; loaded = none }

dispatch_fault_example : is_fault (dispatch delivery exit_event (daemon_in State.remove)) ≡ true
dispatch_fault_example =
    dispatch_fault delivery exit_event (daemon_in State.remove) (entry_in State.remove) refl refl
      there refl refl refl
  where
    there : find_vm (daemon_in State.remove).vm_list (some 1) ≡ some (entry_in State.remove)
    there = unfold find_vm in refl

-- A reload that lowers the memory of a running machine.
abbrev new_entry : VmConfEntry
new_entry = record sample_conf_entry { conf = record sample_conf { memory = some (codes "1G") } }

abbrev IsVm1 : VmConfEntry → Type 0
IsVm1 c = c.conf.name ≡ codes "vm1"

reloaded :
    (reload_virtual_machines (λ name. sample_env) (some (new_entry ∷ [])) (daemon_in State.run)).0
    ≡ true
unfolding reload_virtual_machines bhyve_method acpi_poweroff_bhyve compare_vm_conf cmp_num
    compare_string strcmp
reloaded = refl

alive :
    (reload_virtual_machines
      (λ name. sample_env)
      (some (new_entry ∷ []))
      (daemon_in State.run)).1.world.dead
    ≡ false
unfolding reload_virtual_machines bhyve_method acpi_poweroff_bhyve compare_vm_conf cmp_num
    compare_string strcmp
alive = refl

reload_virtual_machines-IsTarget_example :
    All
      (IsTarget IsVm1)
      (reload_virtual_machines
        (λ name. sample_env)
        (some (new_entry ∷ []))
        (daemon_in State.run)).1.vm_list
reload_virtual_machines-IsTarget_example =
    reload_virtual_machines-IsTarget IsVm1 (λ name. sample_env) (new_entry ∷ [])
      (daemon_in State.run) (refl, tt) reloaded alive

-- The same with a second machine, which is not to be started.
abbrev second_entry : VmConfEntry
second_entry = record sample_conf_entry {
  conf = record sample_conf { name = codes "vm2"; boot = Boot.no };
}

abbrev two_confs : List VmConfEntry
two_confs = new_entry ∷ second_entry ∷ []

two_confs-HasNames : HasNames two_confs
two_confs-HasNames = (((λ h. ground (arith, h)), tt), (tt, tt))

reloaded_both :
    (reload_virtual_machines (λ name. sample_env) (some two_confs) (daemon_in State.run)).0 ≡ true
unfolding reload_virtual_machines bhyve_method acpi_poweroff_bhyve compare_vm_conf cmp_num
    compare_string strcmp
reloaded_both = refl

alive_both :
    (reload_virtual_machines
      (λ name. sample_env)
      (some two_confs)
      (daemon_in State.run)).1.world.dead
    ≡ false
unfolding reload_virtual_machines bhyve_method acpi_poweroff_bhyve compare_vm_conf cmp_num
    compare_string strcmp
alive_both = refl

reload_virtual_machines-All_example :
    All
      (λ c.
        IsServed c
          (reload_virtual_machines
            (λ name. sample_env)
            (some two_confs)
            (daemon_in State.run)).1.vm_list)
      two_confs
reload_virtual_machines-All_example =
    reload_virtual_machines-All (λ name. sample_env) two_confs (daemon_in State.run)
      two_confs-HasNames ((omega arith, tt), (tt, tt)) reloaded_both alive_both

auto_is_auto : case_eq (codes "auto") (codes "auto") ≡ true
unfolding case_eq
auto_is_auto = refl

abbrev ports : List (Option Str)
ports = some (codes "auto") ∷ some (codes "/dev/nmdm205B") ∷ []

devices-IsBelow : All (IsBelow int_max) (device_names sample_devices)
unfolding device_names get_nmdm_number to_int ◌*ℤ◌ ◌+ℤ◌ ◌-ℤ◌
devices-IsBelow = (refl, (refl, tt))

ports-IsBelow : All (IsBelow int_max) ports
unfolding get_nmdm_number to_int ◌*ℤ◌ ◌+ℤ◌ ◌-ℤ◌
ports-IsBelow = (refl, (refl, tt))

assign_comport-IsNewPort_example :
    ((assign_comport sample_env (pos 200) ports sample_conf sample_vm).0 ≡ true)
    × IsNewPort
        (pos 200)
        ports
        sample_devices
        (assign_comport sample_env (pos 200) ports sample_conf sample_vm).1.assigned_comport
assign_comport-IsNewPort_example =
    assign_comport-IsNewPort sample_env (pos 200) ports sample_conf sample_vm (codes "auto")
      sample_devices (omega arith, omega arith) ports-IsBelow devices-IsBelow refl auto_is_auto refl
      refl refl

-- The device that is assigned there.
assigned_206 :
    (assign_comport sample_env (pos 200) ports sample_conf sample_vm).1.assigned_comport
    ≡ some (codes "/dev/nmdm206B")
unfolding assign_comport case_eq ◌+ℤ◌ ◌-ℤ◌ ◌*ℤ◌ to_int new_number device_path show_int
assigned_206 = refl
