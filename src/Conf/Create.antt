-- ===== src/Conf/Create.antt =====
-- How conf.c makes, fills and finishes a configuration. Allocations succeed.
pub mod Ids
use Ids.{IdList, get_id}
use bmd.Prelude.{
  ℕ, suc, ◌+◌, ℤ, pos, negsuc, Bool, true, false, ◌≡◌, Option, none, some, List, [], ◌∷◌, ◌++◌, Str,
  codes, show_nat, ltb_ℤ, if◌then◌else◌, split_at, is_some, arith,
}
use bmd.Conf.{
  Boot, HostbridgeType, PassthruConf, DiskConf, IsoConf, NetConf, Fbuf, QueueTail, null_tail,
  valid_tail, written_null_tail, VmConf,
}
use bmd.Conf.Vars.{Variables, set_var0}

unfoldable pub create_fbuf : Fbuf
create_fbuf = record {
  enable = negsuc 0;
  port = pos 5900;
  ipaddr = codes "0.0.0.0";
  vgaconf = codes "io";
  password = none;
  width = pos 1024;
  height = pos 768;
  wait = false;
}

-- What `calloc` leaves 0 is `none`, `false`, 0, `Boot.no` or the empty queue. STAILQ_INIT is called
-- for each queue but `passthrues`, whose end stays a NULL pointer.
unfoldable pub create_vm_conf : IdList → Str → IdList × VmConf
unfolding create_fbuf get_id
create_vm_conf ids vm_name =
    let (id, ids') = get_id ids vm_name in
    let local = set_var0 (set_var0 [] (codes "NAME") vm_name) (codes "ID") (show_nat id) in
    (
      ids',
      record {
        vars = record { global = none; local = some local; args = none };
        fbuf = create_fbuf;
        disks = [];
        isoes = [];
        nets = [];
        passthrues = [];
        passthru_tail = null_tail;
        keymap = none;
        backend = codes "bhyve";
        debug_port = none;
        ncpu = none;
        memory = none;
        name = vm_name;
        comport = none;
        loader = none;
        loadcmd = none;
        installcmd = none;
        err_logfile = none;
        grub_run_partition = none;
        owner = pos 0;
        group = negsuc 0;
        boot = Boot.no;
        hostbridge = HostbridgeType.intel;
        ndisks = 0;
        nisoes = 0;
        nnets = 0;
        npassthrues = 0;
        boot_delay = pos 0;
        loader_timeout = pos 15;
        stop_timeout = pos 300;
        mouse = false;
        wired_memory = false;
        utctime = true;
        reboot_on_change = false;
        single_user = false;
        install = false;
        bhyveload_loader = none;
        nbhyveload_envs = 0;
        bhyveload_envs = [];
        nbhyve_envs = 0;
        bhyve_envs = [];
      },
    )

unfoldable pub finalize_vm_conf : VmConf → VmConf
finalize_vm_conf conf =
    if ltb_ℤ conf.fbuf.enable (pos 0)
    then record conf { fbuf = record conf.fbuf { enable = pos 0 } }
    else conf

-- STAILQ_INSERT_TAIL writes through the pointer to the end of the queue.
insert_passthru : QueueTail → VmConf → Str → VmConf
insert_passthru null_tail conf devid = record conf { passthru_tail = written_null_tail }
insert_passthru valid_tail conf devid = record conf {
  passthrues = conf.passthrues ++ record { devid = devid } ∷ [];
  npassthrues = conf.npassthrues + 1;
}
insert_passthru written_null_tail conf devid = conf

unfoldable pub add_passthru_conf : VmConf → Str → VmConf
unfolding insert_passthru
add_passthru_conf conf devid = insert_passthru conf.passthru_tail conf devid

unfoldable pub add_disk_conf : VmConf → Str → Str → VmConf
add_disk_conf conf type path = record conf {
  disks = conf.disks ++ record { type = type; path = path } ∷ [];
  ndisks = conf.ndisks + 1;
}

unfoldable pub add_iso_conf : VmConf → Str → Str → VmConf
add_iso_conf conf type path = record conf {
  isoes = conf.isoes ++ record { type = type; path = path } ∷ [];
  nisoes = conf.nisoes + 1;
}

unfoldable pub add_net_conf : VmConf → Str → Str → VmConf
add_net_conf conf type bridge = record conf {
  nets = conf.nets ++ record { type = type; bridge = bridge; tap = none } ∷ [];
  nnets = conf.nnets + 1;
}

unfoldable pub add_bhyveload_env : VmConf → Str → VmConf
add_bhyveload_env conf env = record conf {
  bhyveload_envs = conf.bhyveload_envs ++ env ∷ [];
  nbhyveload_envs = conf.nbhyveload_envs + 1;
}

unfoldable pub add_bhyve_env : VmConf → Str → VmConf
add_bhyve_env conf env = record conf {
  bhyve_envs = conf.bhyve_envs ++ env ∷ [];
  nbhyve_envs = conf.nbhyve_envs + 1;
}

-- The `clear` functions empty the queue, initialise it and leave its count.
unfoldable pub clear_passthru_conf : VmConf → VmConf
clear_passthru_conf conf = record conf { passthrues = []; passthru_tail = valid_tail }

unfoldable pub clear_disk_conf : VmConf → VmConf
clear_disk_conf conf = record conf { disks = [] }

unfoldable pub clear_iso_conf : VmConf → VmConf
clear_iso_conf conf = record conf { isoes = [] }

unfoldable pub clear_net_conf : VmConf → VmConf
clear_net_conf conf = record conf { nets = [] }

unfoldable pub clear_bhyveload_env : VmConf → VmConf
clear_bhyveload_env conf = record conf { bhyveload_envs = [] }

unfoldable pub clear_bhyve_env : VmConf → VmConf
clear_bhyve_env conf = record conf { bhyve_envs = [] }

unfoldable pub copy_net_conf : NetConf → NetConf
copy_net_conf nc = record { type = nc.type; bridge = nc.bridge; tap = nc.tap }
