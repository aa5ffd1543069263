-- ===== src/Vm/Args.antt =====
-- The arguments that vm.c gives to bhyve, as the child of exec_bhyve writes them.
pub mod Slots
pub mod Given
pub mod NoBridge
use bmd.Prelude.{
  ℕ, suc, ◌+◌, ℤ, is_zero, Bool, true, false, not, Option, none, some, List, [], ◌∷◌, ◌++◌, Str,
  codes, case_eq, show_nat, show_int, if◌then◌else◌,
}
use bmd.Conf.{HostbridgeType, PassthruConf, DiskConf, IsoConf, NetConf, Fbuf, VmConf}
use bmd.Vm.{Vm}

-- A NULL pointer is `none`.
abbrev pub Args : Type 0
Args = List (Option Str)

-- What `%s` writes for a pointer.
abbrev pub or_null : Option Str → Str
or_null none = codes "(null)"
or_null (some s) = s

-- `text` under a condition.
abbrev pub args_if : Bool → Args → Args
args_if b args = if b then args else []

-- An option with a value that may be missing, in which case it is not written.
pub option_args : Str → Option Str → Args
option_args flag none = []
option_args flag (some v) = some flag ∷ some v ∷ []

unfoldable pub wait_text : Bool → Str
wait_text b = if b then codes ",wait" else []

unfoldable pub password_text : Option Str → Str
password_text none = []
password_text (some p) = codes ",password=" ++ p

-- What get_fbuf_option writes behind the number of the slot.
unfoldable pub fbuf_text : Fbuf → Str
unfolding wait_text password_text show_int
fbuf_text fb =
    codes "fbuf,tcp="
    ++ (fb.ipaddr
        ++ (codes ":"
            ++ (show_int fb.port
                ++ (codes ",w="
                    ++ (show_int fb.width
                        ++ (codes ",h="
                            ++ (show_int fb.height
                                ++ (codes ",vga="
                                    ++ (fb.vgaconf
                                        ++ (wait_text fb.wait ++ password_text fb.password))))))))))

unfoldable pub get_fbuf_option : ℕ → Fbuf → Str
unfolding fbuf_text show_nat
get_fbuf_option pcid fb = show_nat pcid ++ (codes "," ++ fbuf_text fb)

-- `WRITE_STR(fp, "-s"); WRITE_FMT(fp, "%d,...", pcid++, ...)`
unfoldable pub slot : ℕ → Str → Args
unfolding show_nat
slot pcid text = some (codes "-s") ∷ some (show_nat pcid ++ (codes "," ++ text)) ∷ []

abbrev pub disk_text : DiskConf → Str
disk_text d = d.type ++ (codes "," ++ d.path)

abbrev pub iso_text : IsoConf → Str
iso_text i = i.type ++ (codes "," ++ i.path)

abbrev pub tap_text : NetConf → Str
tap_text n = n.type ++ (codes "," ++ or_null n.tap)

abbrev pub passthru_text : PassthruConf → Str
passthru_text p = codes "passthru," ++ p.devid

-- A loop over devices, from the number `pcid` on: the arguments, and the next number.
unfoldable pub device_args : {A : Type 0} → (A → Str) → List A → ℕ → Args × ℕ
unfolding slot
device_args text [] pcid = ([], pcid)
device_args text (d ∷ ds) pcid =
    let (args, next) = device_args text ds (pcid + 1) in (slot pcid (text d) ++ args, next)

unfoldable pub screen_args : Fbuf → ℕ → Args × ℕ
unfolding get_fbuf_option
screen_args fb pcid =
    if is_zero fb.enable
    then ([], pcid)
    else (some (codes "-s") ∷ some (get_fbuf_option pcid fb) ∷ [], pcid + 1)

unfoldable pub mouse_args : Bool → ℕ → Args
unfolding slot
mouse_args mouse pcid = if mouse then slot pcid (codes "xhci,tablet") else []

-- The devices from slot 2 on.
unfoldable pub all_devices : VmConf → Vm → Args
unfolding device_args screen_args mouse_args
all_devices conf vm =
    let (disks, a) = device_args disk_text conf.disks 2 in
    let (isoes, b) = device_args iso_text conf.isoes a in
    let (taps, c) = device_args tap_text vm.taps b in
    let (passthrues, d) = device_args passthru_text conf.passthrues c in
    let (screen, e) = screen_args conf.fbuf d in
    disks ++ (isoes ++ (taps ++ (passthrues ++ (screen ++ mouse_args conf.mouse e))))

pub firmware : Str
firmware = codes "bootrom,/usr/local/share/uefi-firmware/BHYVE_UEFI.fd"

vars_text : Option Str → Str
vars_text none = firmware
vars_text (some file) = firmware ++ (codes "," ++ file)

-- A loader is given here: start_bhyve has compared it.
pub loader_args : Option Str → Option Str → Args
unfolding vars_text firmware case_eq
loader_args none varsfile = []
loader_args (some loader) varsfile =
    if case_eq loader (codes "uefi")
    then some (codes "-l") ∷ some (vars_text varsfile) ∷ []
    else if case_eq loader (codes "csm")
    then some (codes "-l")
      ∷ some (codes "bootrom,/usr/local/share/uefi-firmware/BHYVE_UEFI_CSM.fd")
      ∷ []
    else []

-- Without a host bridge the option stands without its value.
unfoldable pub hostbridge_args : HostbridgeType → Args
hostbridge_args HostbridgeType.none = some (codes "-s") ∷ []
hostbridge_args HostbridgeType.intel = some (codes "-s") ∷ some (codes "0,hostbridge") ∷ []
hostbridge_args HostbridgeType.amd = some (codes "-s") ∷ some (codes "0,amd_hostbridge") ∷ []

pub comport_args : Option Str → Args
comport_args none = []
comport_args (some port) = some (codes "-l") ∷ some (codes "com1," ++ port) ∷ []

-- What stands before the devices.
unfoldable pub option_part : VmConf → Vm → Args
unfolding option_args comport_args loader_args hostbridge_args
option_part conf vm =
    some (codes "/usr/sbin/bhyve")
    ∷ some (codes "-A")
    ∷ some (codes "-H")
    ∷ some (codes "-w")
    ∷ (args_if conf.utctime (some (codes "-u") ∷ [])
        ++ (args_if conf.wired_memory (some (codes "-S") ∷ [])
            ++ (option_args (codes "-G") conf.debug_port
                ++ (some (codes "-c")
                    ∷ conf.ncpu
                    ∷ some (codes "-m")
                    ∷ conf.memory
                    ∷ (comport_args vm.assigned_comport
                        ++ (option_args (codes "-K") conf.keymap
                            ++ (loader_args conf.loader vm.varsfile
                                ++ (hostbridge_args conf.hostbridge
                                    ++ some (codes "-s") ∷ some (codes "1,lpc") ∷ []))))))))

-- The vector of execv(2), with the NULL at its end.
unfoldable pub exec_args : VmConf → Vm → Args
unfolding option_part all_devices
exec_args conf vm = option_part conf vm ++ (all_devices conf vm ++ some conf.name ∷ none ∷ [])
