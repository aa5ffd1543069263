-- ===== src/Vm.antt =====
-- The virtual machine of conf.h and the methods of its backend, bmd_plugin.h.
pub mod Taps
pub mod Bhyve
pub mod Args
pub mod Split
pub mod Loaders
pub mod ErrLog
use bmd.Prelude.{ℕ, Bool, Option, List, Str}
use bmd.Conf.{NetConf, VmConf}

pub data State : Type 0 where
  terminate load run stop remove restart : State

-- A descriptor or process id that is -1 is `none`. The configuration stands beside the machine.
pub record Vm : Type 0 where
  pub state : State
  pub pid : Option ℕ
  pub taps : List NetConf
  pub mapfile : Option Str
  pub varsfile : Option Str
  pub assigned_comport : Option Str
  pub infd : Option ℕ
  pub outfd : Option ℕ
  pub errfd : Option ℕ
  pub logfd : Option ℕ

-- What a method asks of the kernel.
pub data Signal : Type 0 where
  sigterm sigkill : Option ℕ → Signal
  suspend_reset suspend_poweroff : Str → Signal
  plugin_signal : Str → Signal

-- What becomes of the map file that grub reads: mkstemp(3) fails, it cannot be written, or it is.
pub data MapReply : Type 0 where
  not_made not_written : MapReply
  written : Str → MapReply

-- The answers of the operating system to one start of a machine.
pub record Spawn : Type 0 where
  -- the read ends of the two output pipes, if pipe(2) made both
  pub pipes : Option (ℕ × ℕ)
  -- grub's input, if pipe(2) made it
  pub input : Option ℕ
  -- the child's process id, if fork(2) made one
  pub fork : Option ℕ
  pub mapfile : MapReply
  -- whether the file of UEFI variables is there, and whether it could be copied
  pub vars_exist : Bool
  pub vars_copied : Bool
  -- what create_load_command returned
  pub load_command : Option Str

-- The end of a call: 0, -1, or the daemon is no more, by exit(1) or a NULL pointer.
pub data Rc : Type 0 where
  ok err dies : Rc

-- `struct vm_method`. The configuration is passed beside the machine.
pub record VmMethod : Type 0 where
  pub name : Str
  pub vm_start : Spawn → VmConf → Vm → Rc × Vm
  pub vm_reset : VmConf → Vm → Signal
  pub vm_poweroff : VmConf → Vm → Signal
  pub vm_acpi_poweroff : VmConf → Vm → Signal
  pub vm_cleanup : VmConf → Vm → Vm
