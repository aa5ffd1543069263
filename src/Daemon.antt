-- ===== src/Daemon.antt =====
-- The state of the daemon in bmd.c: the lists of virtual machines and of events, and what it has
-- asked of the kernel. A pointer to an entry is the entry's address, a number that no two share.
pub mod Entries
pub mod Events
pub mod Comport
pub mod Machine
pub mod Reload
pub mod Loop
use bmd.Prelude.{ℕ, ℤ, Bool, Option, List, Str}
use bmd.Conf.{VmConf}
use bmd.Conf.Nv.{NvList}
use bmd.Vm.{Vm, VmMethod, Signal, Spawn}
use bmd.Vm.Taps.{TapEnv}

-- `struct plugin_data`: a plugin's name and method, and its configuration for one machine.
pub record PluginData : Type 0 where
  pub ent : Str
  pub method : Option VmMethod
  pub pl_conf : NvList

pub record VmConfEntry : Type 0 where
  pub conf : VmConf
  pub pl_data : List PluginData

pub record VmEntry : Type 0 where
  pub addr : ℕ
  pub vm : Vm
  pub conf : VmConfEntry
  pub new_conf : Option VmConfEntry
  pub method : VmMethod

pub data Filter : Type 0 where
  read_filter write_filter proc_filter timer_filter signal_filter : Filter

pub data Callback : Type 0 where
  on_timer on_vm_exit on_read_vm_output on_recv_sock_buf on_send_sock_buf : Callback
  on_accept_cmd_sock on_sigterm on_sighup plugin_call_back : Callback

-- `struct event` with the parts of its kevent that the program reads. `target` is the pointer
-- `data`, `key` the event's own address.
pub record Event : Type 0 where
  pub key : ℕ
  pub filter : Filter
  pub ident : ℕ
  pub oneshot : Bool
  pub cb : Callback
  pub target : Option ℕ

-- What all handlers share. `next` is the next free address, `sent` the signals, the last one
-- first, `nmdm_offset` is that of gl_conf; `dead` is set when the process has ended.
pub record World : Type 0 where
  pub event_list : List Event
  pub timer_id : ℕ
  pub next : ℕ
  pub sent : List Signal
  pub nmdm_offset : ℤ
  pub dead : Bool

-- The answers of the operating system while one machine is started or stopped.
pub record Env : Type 0 where
  pub spawn : Spawn
  pub taps : TapEnv
  pub activate : Bool
  -- the names that scandir(3) finds in /dev, and whether stat(2) can reserve a device
  pub devices : Option (List Str)
  pub stat : Bool
  -- whether remove_taps gets its socket
  pub remove : Bool
  -- whether the kernel takes the events
  pub proc_event : Bool
  pub output_event : Bool
  pub timer_event : Bool
  -- what open_err_logfile returns
  pub log : Option ℕ

pub record Daemon : Type 0 where
  pub vm_list : List VmEntry
  pub world : World
  pub sigterm : ℕ
