-- ===== src/Conf/Compare/Same.antt =====
-- What it means that `compare_vm_conf` gives 0: the two configurations agree on every field that
-- the comparison looks at.
use bmd.Prelude.{◌<◌, ◌^◌, pos, some, map, ◌≡◌, ◌↔◌, ap, All}
use bmd.Conf.{VmConf}
use bmd.Conf.Compare.{
  bool_int, boot_int, hostbridge_int, vm_chain, compare_passthru_conf, compare_disk_conf,
  compare_iso_conf, compare_net_conf, compare_env, compare_vm_conf,
}
use bmd.Conf.Compare.Zero.{
  IsInt, IsId, cmp_num-eq_zero, cmp_num-eq_zero_id, cmp_bool-eq_zero, cmp_boot-eq_zero,
  cmp_hostbridge-eq_zero, compare_string_self, compare_string-eq_zero, first_nonzero-All,
  All-first_nonzero, compare_queue-eq, compare_queue-eq_zero, compare_queue-zero_of_key,
}
use bmd.Conf.Compare.Parts.{
  FbufInRange, net_key, ◌▹◌, some-eq, some_self, compare_fbuf-eq_zero, passthru-eq, disk-eq, iso-eq,
  net-eq, passthru_self, disk_self, iso_self, net-of_key, cmp_count-eq_zero, num_zero, string_zero,
  fbuf_zero, queue_zero,
}

-- The numbers of a configuration lie in the range of their C types.
pub record InRange (c : VmConf) : Type 0 where
  pub boot_delay : IsInt c.boot_delay
  pub loader_timeout : IsInt c.loader_timeout
  pub stop_timeout : IsInt c.stop_timeout
  pub owner : IsId c.owner
  pub group : IsId c.group
  pub ndisks : c.ndisks < 2 ^ 31
  pub nisoes : c.nisoes < 2 ^ 31
  pub nnets : c.nnets < 2 ^ 31
  pub fbuf : FbufInRange c.fbuf

pub record SameConf (a b : VmConf) : Type 0 where
  pub boot_delay : a.boot_delay ≡ b.boot_delay
  pub loader_timeout : a.loader_timeout ≡ b.loader_timeout
  pub stop_timeout : a.stop_timeout ≡ b.stop_timeout
  pub hostbridge : a.hostbridge ≡ b.hostbridge
  pub owner : a.owner ≡ b.owner
  pub group : a.group ≡ b.group
  pub debug_port : a.debug_port ≡ b.debug_port
  pub ncpu : a.ncpu ≡ b.ncpu
  pub memory : a.memory ≡ b.memory
  pub name : a.name ≡ b.name
  pub comport : a.comport ≡ b.comport
  pub boot : a.boot ≡ b.boot
  pub loader : a.loader ≡ b.loader
  pub loadcmd : a.loadcmd ≡ b.loadcmd
  pub installcmd : a.installcmd ≡ b.installcmd
  pub err_logfile : a.err_logfile ≡ b.err_logfile
  pub grub_run_partition : a.grub_run_partition ≡ b.grub_run_partition
  pub bhyveload_loader : a.bhyveload_loader ≡ b.bhyveload_loader
  pub keymap : a.keymap ≡ b.keymap
  pub fbuf : a.fbuf ≡ b.fbuf
  pub mouse : a.mouse ≡ b.mouse
  pub wired_memory : a.wired_memory ≡ b.wired_memory
  pub utctime : a.utctime ≡ b.utctime
  pub reboot_on_change : a.reboot_on_change ≡ b.reboot_on_change
  pub single_user : a.single_user ≡ b.single_user
  pub install : a.install ≡ b.install
  pub ndisks : a.ndisks ≡ b.ndisks
  pub nisoes : a.nisoes ≡ b.nisoes
  pub nnets : a.nnets ≡ b.nnets
  pub passthrues : a.passthrues ≡ b.passthrues
  pub disks : a.disks ≡ b.disks
  pub isoes : a.isoes ≡ b.isoes
  pub nets : map net_key a.nets ≡ map net_key b.nets
  pub bhyveload_envs : a.bhyveload_envs ≡ b.bhyveload_envs
  pub bhyve_envs : a.bhyve_envs ≡ b.bhyve_envs

SameConf-of_chain :
    (a b : VmConf) → InRange a → InRange b → All (λ rc. rc ≡ pos 0) (vm_chain a b) → SameConf a b
SameConf-of_chain a b ra rb
      (z_boot_delay ▹ z_loader_timeout ▹ z_stop_timeout ▹ z_hostbridge ▹ z_owner ▹ z_group
        ▹ z_debug_port ▹ z_ncpu ▹ z_memory ▹ z_name ▹ z_comport ▹ z_boot ▹ z_loader ▹ z_loadcmd
        ▹ z_installcmd ▹ z_err_logfile ▹ z_grub_run_partition ▹ z_bhyveload_loader ▹ z_keymap
        ▹ z_fbuf ▹ z_mouse ▹ z_wired_memory ▹ z_utctime ▹ z_reboot_on_change ▹ z_single_user
        ▹ z_install ▹ z_ndisks ▹ z_nisoes ▹ z_nnets ▹ z_passthrues ▹ z_disks ▹ z_isoes ▹ z_nets
        ▹ z_bhyveload_envs ▹ z_bhyve_envs ▹ _) =
    record {
      boot_delay =
          cmp_num-eq_zero a.boot_delay b.boot_delay ra.boot_delay rb.boot_delay z_boot_delay;
      loader_timeout =
          cmp_num-eq_zero a.loader_timeout b.loader_timeout ra.loader_timeout rb.loader_timeout
            z_loader_timeout;
      stop_timeout =
          cmp_num-eq_zero a.stop_timeout b.stop_timeout ra.stop_timeout rb.stop_timeout
            z_stop_timeout;
      hostbridge = cmp_hostbridge-eq_zero a.hostbridge b.hostbridge z_hostbridge;
      owner = cmp_num-eq_zero_id a.owner b.owner ra.owner rb.owner z_owner;
      group = cmp_num-eq_zero_id a.group b.group ra.group rb.group z_group;
      debug_port = compare_string-eq_zero a.debug_port b.debug_port z_debug_port;
      ncpu = compare_string-eq_zero a.ncpu b.ncpu z_ncpu;
      memory = compare_string-eq_zero a.memory b.memory z_memory;
      name = some-eq z_name;
      comport = compare_string-eq_zero a.comport b.comport z_comport;
      boot = cmp_boot-eq_zero a.boot b.boot z_boot;
      loader = compare_string-eq_zero a.loader b.loader z_loader;
      loadcmd = compare_string-eq_zero a.loadcmd b.loadcmd z_loadcmd;
      installcmd = compare_string-eq_zero a.installcmd b.installcmd z_installcmd;
      err_logfile = compare_string-eq_zero a.err_logfile b.err_logfile z_err_logfile;
      grub_run_partition =
          compare_string-eq_zero a.grub_run_partition b.grub_run_partition z_grub_run_partition;
      bhyveload_loader =
          compare_string-eq_zero a.bhyveload_loader b.bhyveload_loader z_bhyveload_loader;
      keymap = compare_string-eq_zero a.keymap b.keymap z_keymap;
      fbuf = compare_fbuf-eq_zero a.fbuf b.fbuf ra.fbuf rb.fbuf z_fbuf;
      mouse = cmp_bool-eq_zero a.mouse b.mouse z_mouse;
      wired_memory = cmp_bool-eq_zero a.wired_memory b.wired_memory z_wired_memory;
      utctime = cmp_bool-eq_zero a.utctime b.utctime z_utctime;
      reboot_on_change = cmp_bool-eq_zero a.reboot_on_change b.reboot_on_change z_reboot_on_change;
      single_user = cmp_bool-eq_zero a.single_user b.single_user z_single_user;
      install = cmp_bool-eq_zero a.install b.install z_install;
      ndisks = cmp_count-eq_zero a.ndisks b.ndisks ra.ndisks rb.ndisks z_ndisks;
      nisoes = cmp_count-eq_zero a.nisoes b.nisoes ra.nisoes rb.nisoes z_nisoes;
      nnets = cmp_count-eq_zero a.nnets b.nnets ra.nnets rb.nnets z_nnets;
      passthrues =
          compare_queue-eq compare_passthru_conf passthru-eq a.passthrues b.passthrues z_passthrues;
      disks = compare_queue-eq compare_disk_conf disk-eq a.disks b.disks z_disks;
      isoes = compare_queue-eq compare_iso_conf iso-eq a.isoes b.isoes z_isoes;
      nets = compare_queue-eq_zero compare_net_conf net_key net-eq a.nets b.nets z_nets;
      bhyveload_envs =
          compare_queue-eq compare_env (λ x y h. some-eq h) a.bhyveload_envs b.bhyveload_envs
            z_bhyveload_envs;
      bhyve_envs =
          compare_queue-eq compare_env (λ x y h. some-eq h) a.bhyve_envs b.bhyve_envs z_bhyve_envs;
    }

chain_of_SameConf : (a b : VmConf) → SameConf a b → All (λ rc. rc ≡ pos 0) (vm_chain a b)
chain_of_SameConf a b s =
    num_zero s.boot_delay
    ▹ num_zero s.loader_timeout
    ▹ num_zero s.stop_timeout
    ▹ num_zero (ap hostbridge_int s.hostbridge)
    ▹ num_zero s.owner
    ▹ num_zero s.group
    ▹ string_zero s.debug_port
    ▹ string_zero s.ncpu
    ▹ string_zero s.memory
    ▹ some_self s.name
    ▹ string_zero s.comport
    ▹ num_zero (ap boot_int s.boot)
    ▹ string_zero s.loader
    ▹ string_zero s.loadcmd
    ▹ string_zero s.installcmd
    ▹ string_zero s.err_logfile
    ▹ string_zero s.grub_run_partition
    ▹ string_zero s.bhyveload_loader
    ▹ string_zero s.keymap
    ▹ fbuf_zero s.fbuf
    ▹ num_zero (ap bool_int s.mouse)
    ▹ num_zero (ap bool_int s.wired_memory)
    ▹ num_zero (ap bool_int s.utctime)
    ▹ num_zero (ap bool_int s.reboot_on_change)
    ▹ num_zero (ap bool_int s.single_user)
    ▹ num_zero (ap bool_int s.install)
    ▹ num_zero (ap pos s.ndisks)
    ▹ num_zero (ap pos s.nisoes)
    ▹ num_zero (ap pos s.nnets)
    ▹ queue_zero compare_passthru_conf passthru_self s.passthrues
    ▹ queue_zero compare_disk_conf disk_self s.disks
    ▹ queue_zero compare_iso_conf iso_self s.isoes
    ▹ compare_queue-zero_of_key compare_net_conf net_key net-of_key a.nets b.nets s.nets
    ▹ queue_zero compare_env (λ x. compare_string_self (some x)) s.bhyveload_envs
    ▹ queue_zero compare_env (λ x. compare_string_self (some x)) s.bhyve_envs
    ▹ tt

-- compare_vm_conf gives 0 exactly when the two configurations agree on every field that SameConf
-- names: all but the backend, the variables, the taps and the counts of passthrough devices and of
-- environments. Their numbers are in the range of their C types.
pub compare_vm_conf-SameConf :
    (a b : VmConf) → InRange a → InRange b → (compare_vm_conf a b ≡ pos 0) ↔ SameConf a b
unfolding compare_vm_conf
compare_vm_conf-SameConf a b ra rb = (
  λ h. SameConf-of_chain a b ra rb (first_nonzero-All (vm_chain a b) h),
  λ s. All-first_nonzero (vm_chain a b) (chain_of_SameConf a b s),
)
