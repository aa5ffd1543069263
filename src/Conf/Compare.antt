-- ===== src/Conf/Compare.antt =====
-- The comparisons of conf.c, which decide whether a virtual machine has to be rebooted. Each
-- returns 0, a negative or a positive `int`; a chain of them returns the first that is not 0.
pub mod Parts
pub mod Same
pub mod Zero
use bmd.Prelude.{
  ℕ, ◌+◌, ◌-◌, ◌<◌, ◌%◌, ◌^◌, ℤ, pos, negsuc, pos_part, neg_part, ◌-ℤ◌, is_zero, Bool, true, false,
  Option, none, some, List, [], ◌∷◌, Str, strcmp, ltb, if◌then◌else◌,
}
use bmd.Conf.{Boot, HostbridgeType, PassthruConf, DiskConf, IsoConf, NetConf, Fbuf, VmConf}

-- A difference that is stored in an `int`: 32 bits in two's complement.
unfoldable pub to_int : ℤ → ℤ
to_int a =
    let bits = (pos_part a % 2 ^ 32 + (2 ^ 32 - neg_part a % 2 ^ 32)) % 2 ^ 32 in
    if ltb bits (2 ^ 31) then pos bits else negsuc (2 ^ 32 - bits - 1)

-- `if ((rc = (a)->t - (b)->t) != 0) return rc`
unfoldable pub cmp_num : ℤ → ℤ → ℤ
unfolding to_int ◌-ℤ◌
cmp_num a b = to_int (a -ℤ b)

-- The value of a bool or of an enum.
abbrev pub bool_int : Bool → ℤ
bool_int false = pos 0
bool_int true = pos 1

abbrev pub boot_int : Boot → ℤ
boot_int Boot.no = pos 0
boot_int Boot.yes = pos 1
boot_int Boot.oneshot = pos 2
boot_int Boot.always = pos 3

abbrev pub hostbridge_int : HostbridgeType → ℤ
hostbridge_int HostbridgeType.none = pos 0
hostbridge_int HostbridgeType.intel = pos 1
hostbridge_int HostbridgeType.amd = pos 2

unfoldable pub compare_string : Option Str → Option Str → ℤ
compare_string none none = pos 0
compare_string none (some b) = negsuc 0
compare_string (some a) none = pos 1
compare_string (some a) (some b) = strcmp a b

-- Each comparison returns unless it gave 0.
unfoldable pub first_nonzero : List ℤ → ℤ
first_nonzero [] = pos 0
first_nonzero (rc ∷ rcs) = let rest = first_nonzero rcs in if is_zero rc then rest else rc

abbrev pub fbuf_chain : Fbuf → Fbuf → List ℤ
fbuf_chain a b =
    cmp_num a.enable b.enable
    ∷ compare_string (some a.ipaddr) (some b.ipaddr)
    ∷ cmp_num a.port b.port
    ∷ cmp_num a.width b.width
    ∷ cmp_num a.height b.height
    ∷ compare_string (some a.vgaconf) (some b.vgaconf)
    ∷ cmp_num (bool_int a.wait) (bool_int b.wait)
    ∷ compare_string a.password b.password
    ∷ []

unfoldable pub compare_fbuf : Fbuf → Fbuf → ℤ
unfolding first_nonzero
compare_fbuf a b = first_nonzero (fbuf_chain a b)

abbrev pub passthru_chain : PassthruConf → PassthruConf → List ℤ
passthru_chain a b = compare_string (some a.devid) (some b.devid) ∷ []

unfoldable pub compare_passthru_conf : PassthruConf → PassthruConf → ℤ
unfolding first_nonzero
compare_passthru_conf a b = first_nonzero (passthru_chain a b)

abbrev pub disk_chain : DiskConf → DiskConf → List ℤ
disk_chain a b =
    compare_string (some a.type) (some b.type) ∷ compare_string (some a.path) (some b.path) ∷ []

unfoldable pub compare_disk_conf : DiskConf → DiskConf → ℤ
unfolding first_nonzero
compare_disk_conf a b = first_nonzero (disk_chain a b)

abbrev pub iso_chain : IsoConf → IsoConf → List ℤ
iso_chain a b =
    compare_string (some a.type) (some b.type) ∷ compare_string (some a.path) (some b.path) ∷ []

unfoldable pub compare_iso_conf : IsoConf → IsoConf → ℤ
unfolding first_nonzero
compare_iso_conf a b = first_nonzero (iso_chain a b)

-- The tap is left out: the configuration file does not give it.
abbrev pub net_chain : NetConf → NetConf → List ℤ
net_chain a b =
    compare_string (some a.type) (some b.type) ∷ compare_string (some a.bridge) (some b.bridge) ∷ []

unfoldable pub compare_net_conf : NetConf → NetConf → ℤ
unfolding first_nonzero
compare_net_conf a b = first_nonzero (net_chain a b)

abbrev pub compare_env : Str → Str → ℤ
compare_env a b = compare_string (some a) (some b)

-- The loops of `compare_vm_conf` over two queues: the longer one is the greater.
unfoldable pub compare_queue {ℓ} : {A : Type ℓ} → (A → A → ℤ) → List A → List A → ℤ
compare_queue cmp [] [] = pos 0
compare_queue cmp [] (b ∷ ys) = negsuc 0
compare_queue cmp (a ∷ xs) [] = pos 1
compare_queue cmp (a ∷ xs) (b ∷ ys) =
    let rest = compare_queue cmp xs ys in let rc = cmp a b in if is_zero rc then rest else rc

-- `compare_vm_conf` compares neither the backend nor the variables.
abbrev pub vm_chain : VmConf → VmConf → List ℤ
vm_chain a b =
    cmp_num a.boot_delay b.boot_delay
    ∷ cmp_num a.loader_timeout b.loader_timeout
    ∷ cmp_num a.stop_timeout b.stop_timeout
    ∷ cmp_num (hostbridge_int a.hostbridge) (hostbridge_int b.hostbridge)
    ∷ cmp_num a.owner b.owner
    ∷ cmp_num a.group b.group
    ∷ compare_string a.debug_port b.debug_port
    ∷ compare_string a.ncpu b.ncpu
    ∷ compare_string a.memory b.memory
    ∷ compare_string (some a.name) (some b.name)
    ∷ compare_string a.comport b.comport
    ∷ cmp_num (boot_int a.boot) (boot_int b.boot)
    ∷ compare_string a.loader b.loader
    ∷ compare_string a.loadcmd b.loadcmd
    ∷ compare_string a.installcmd b.installcmd
    ∷ compare_string a.err_logfile b.err_logfile
    ∷ compare_string a.grub_run_partition b.grub_run_partition
    ∷ compare_string a.bhyveload_loader b.bhyveload_loader
    ∷ compare_string a.keymap b.keymap
    ∷ compare_fbuf a.fbuf b.fbuf
    ∷ cmp_num (bool_int a.mouse) (bool_int b.mouse)
    ∷ cmp_num (bool_int a.wired_memory) (bool_int b.wired_memory)
    ∷ cmp_num (bool_int a.utctime) (bool_int b.utctime)
    ∷ cmp_num (bool_int a.reboot_on_change) (bool_int b.reboot_on_change)
    ∷ cmp_num (bool_int a.single_user) (bool_int b.single_user)
    ∷ cmp_num (bool_int a.install) (bool_int b.install)
    ∷ cmp_num (pos a.ndisks) (pos b.ndisks)
    ∷ cmp_num (pos a.nisoes) (pos b.nisoes)
    ∷ cmp_num (pos a.nnets) (pos b.nnets)
    ∷ compare_queue compare_passthru_conf a.passthrues b.passthrues
    ∷ compare_queue compare_disk_conf a.disks b.disks
    ∷ compare_queue compare_iso_conf a.isoes b.isoes
    ∷ compare_queue compare_net_conf a.nets b.nets
    ∷ compare_queue compare_env a.bhyveload_envs b.bhyveload_envs
    ∷ compare_queue compare_env a.bhyve_envs b.bhyve_envs
    ∷ []

unfoldable pub compare_vm_conf : VmConf → VmConf → ℤ
unfolding first_nonzero
compare_vm_conf a b = first_nonzero (vm_chain a b)
