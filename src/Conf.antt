-- ===== src/Conf.antt =====
-- conf.h and bmd_plugin.h: the data of a virtual machine's configuration. A `char *` that may be
-- NULL is an `Option Str`, a queue is a list and an `int` is an integer; an `int` that only counts
-- is a number.
pub mod Compare
pub mod Nv
pub mod Setters
pub mod Create
pub mod Vars
use Vars.{Variables}
use bmd.Prelude.{ℕ, ℤ, Bool, Option, List, Str}

pub data Boot : Type 0 where
  no yes oneshot always : Boot

pub data HostbridgeType : Type 0 where
  none intel amd : HostbridgeType

pub record PassthruConf : Type 0 where
  pub devid : Str

pub record DiskConf : Type 0 where
  pub type : Str
  pub path : Str

pub record IsoConf : Type 0 where
  pub type : Str
  pub path : Str

-- `tap` is set while the virtual machine runs.
pub record NetConf : Type 0 where
  pub type : Str
  pub bridge : Str
  pub tap : Option Str

-- `enable` is -1 until it is known.
pub record Fbuf : Type 0 where
  pub enable : ℤ
  pub port : ℤ
  pub ipaddr : Str
  pub vgaconf : Str
  pub password : Option Str
  pub width : ℤ
  pub height : ℤ
  pub wait : Bool

-- The pointer to the end of a queue: NULL, as calloc(3) leaves it; valid, as STAILQ_INIT leaves it;
-- or NULL and an element was inserted through it, which ends the process by a signal.
pub data QueueTail : Type 0 where
  null_tail valid_tail written_null_tail : QueueTail

-- `passthru_tail` is the end of `passthrues`. The other queues are initialised from the beginning.
pub record VmConf : Type 0 where
  pub vars : Variables
  pub fbuf : Fbuf
  pub disks : List DiskConf
  pub isoes : List IsoConf
  pub nets : List NetConf
  pub passthrues : List PassthruConf
  pub passthru_tail : QueueTail
  pub keymap : Option Str
  pub backend : Str
  pub debug_port : Option Str
  pub ncpu : Option Str
  pub memory : Option Str
  pub name : Str
  pub comport : Option Str
  pub loader : Option Str
  pub loadcmd : Option Str
  pub installcmd : Option Str
  pub err_logfile : Option Str
  pub grub_run_partition : Option Str
  pub owner : ℤ
  pub group : ℤ
  pub boot : Boot
  pub hostbridge : HostbridgeType
  pub ndisks : ℕ
  pub nisoes : ℕ
  pub nnets : ℕ
  pub npassthrues : ℕ
  pub boot_delay : ℤ
  pub loader_timeout : ℤ
  pub stop_timeout : ℤ
  pub mouse : Bool
  pub wired_memory : Bool
  pub utctime : Bool
  pub reboot_on_change : Bool
  pub single_user : Bool
  pub install : Bool
  pub bhyveload_loader : Option Str
  pub nbhyveload_envs : ℕ
  pub bhyveload_envs : List Str
  pub nbhyve_envs : ℕ
  pub bhyve_envs : List Str
