-- ===== src/Tests/Samples.antt =====
-- Concrete configurations, machines and answers of the system for the tests.
use bmd.Prelude.{pos, negsuc, true, false, none, some, List, [], ◌∷◌, Str, codes}
use bmd.Conf.{Boot, HostbridgeType, VmConf, Fbuf, valid_tail}
use bmd.Conf.Nv.{NvList}
use bmd.Vm.{State, Vm, VmMethod, Spawn, MapReply}
use bmd.Vm.Bhyve.{bhyve_method}
use bmd.Daemon.{PluginData, VmConfEntry, VmEntry, Filter, Callback, Event, World, Env, Daemon}

abbrev pub sample_fbuf : Fbuf
sample_fbuf = record {
  enable = pos 0;
  port = pos 5900;
  ipaddr = codes "0.0.0.0";
  vgaconf = codes "io";
  password = none;
  width = pos 1024;
  height = pos 768;
  wait = false;
}

abbrev pub sample_conf : VmConf
sample_conf = record {
  vars = record { global = none; local = none; args = none };
  fbuf = sample_fbuf;
  disks = record { type = codes "virtio-blk"; path = codes "/vm/disk.img" } ∷ [];
  isoes = [];
  nets = [];
  passthrues = [];
  passthru_tail = valid_tail;
  keymap = none;
  backend = codes "bhyve";
  debug_port = none;
  ncpu = some (codes "2");
  memory = some (codes "2G");
  name = codes "vm1";
  comport = some (codes "auto");
  loader = some (codes "bhyveload");
  loadcmd = none;
  installcmd = none;
  err_logfile = none;
  grub_run_partition = none;
  owner = pos 1001;
  group = negsuc 0;
  boot = Boot.yes;
  hostbridge = HostbridgeType.intel;
  ndisks = 1;
  nisoes = 0;
  nnets = 0;
  npassthrues = 0;
  boot_delay = pos 0;
  loader_timeout = pos 15;
  stop_timeout = pos 300;
  mouse = false;
  wired_memory = false;
  utctime = true;
  reboot_on_change = true;
  single_user = false;
  install = true;
  bhyveload_loader = none;
  nbhyveload_envs = 0;
  bhyveload_envs = [];
  nbhyve_envs = 0;
  bhyve_envs = [];
}

abbrev pub bhyve : VmMethod
bhyve = bhyve_method (codes "/var/cache/bmd")

abbrev pub sample_vm : Vm
sample_vm = record {
  state = State.terminate;
  pid = none;
  taps = [];
  mapfile = none;
  varsfile = none;
  assigned_comport = none;
  infd = none;
  outfd = none;
  errfd = none;
  logfd = none;
}

abbrev pub sample_plugins : List PluginData
sample_plugins = record { ent = codes "bhyve"; method = some bhyve; pl_conf = NvList.empty } ∷ []

abbrev pub sample_conf_entry : VmConfEntry
sample_conf_entry = record { conf = sample_conf; pl_data = sample_plugins }

abbrev pub sample_entry : VmEntry
sample_entry = record {
  addr = 1;
  vm = sample_vm;
  conf = sample_conf_entry;
  new_conf = none;
  method = bhyve;
}

-- A machine in another state, with a process and two pipes.
abbrev pub entry_in : State → VmEntry
entry_in st = record sample_entry {
  vm = record sample_vm {
    state = st;
    pid = some 4711;
    outfd = some 7;
    errfd = some 8;
    assigned_comport = some (codes "/dev/nmdm2B");
  };
}

abbrev pub sample_spawn : Spawn
sample_spawn = record {
  pipes = some (7, 8);
  input = some 9;
  fork = some 4711;
  mapfile = MapReply.written (codes "/tmp/bmd.map");
  vars_exist = true;
  vars_copied = true;
  load_command = none;
}

abbrev pub sample_devices : List Str
sample_devices = codes "nmdm3B" ∷ codes "nmdm11B" ∷ []

abbrev pub sample_env : Env
sample_env = record {
  spawn = sample_spawn;
  taps = record { socket = true; replies = []; undo = true };
  activate = true;
  devices = some sample_devices;
  stat = true;
  remove = true;
  proc_event = true;
  output_event = true;
  timer_event = true;
  log = none;
}

-- What waits for the machine of `entry_in`.
abbrev pub exit_event : Event
exit_event = record {
  key = 2;
  filter = Filter.proc_filter;
  ident = 4711;
  oneshot = true;
  cb = Callback.on_vm_exit;
  target = some 1;
}

abbrev pub timer_event : Event
timer_event = record {
  key = 3;
  filter = Filter.timer_filter;
  ident = 1;
  oneshot = true;
  cb = Callback.on_timer;
  target = some 1;
}

abbrev pub sample_world : World
sample_world = record {
  event_list = timer_event ∷ exit_event ∷ [];
  timer_id = 1;
  next = 4;
  sent = [];
  nmdm_offset = pos 200;
  dead = false;
}

abbrev pub daemon_in : State → Daemon
daemon_in st = record { vm_list = entry_in st ∷ []; world = sample_world; sigterm = 0 }
