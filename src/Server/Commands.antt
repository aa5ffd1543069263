-- ===== src/Server/Commands.antt =====
-- The commands of server.c. A request and a response are name/value lists, as they stand before
-- nvlist_pack(9) and after nvlist_unpack(9). The response's bytes are not modelled.
pub mod Allowed
pub mod Down
use bmd.Prelude.{
  to_id, ℕ, ◌+◌, ◌-◌, ◌%◌, ◌^◌, ℤ, pos, is_zero, pos_part, neg_part, Bool, true, false, not, ◌&&◌,
  ◌||◌, ◌==◌, leb, Option, none, some, List, [], ◌∷◌, ◌++◌, Str, codes, length, str_eq, case_eq,
  show_int, if◌then◌else◌,
}
use bmd.Conf.{VmConf, Fbuf}
use bmd.Conf.Nv.{
  NvList, NvValue, NvArray, empty, pair, null, bool, number, string, nvlist_array, item, end,
}
use bmd.Vm.{State, Vm, VmMethod, Rc, ok, err, dies}
use bmd.Daemon.{VmConfEntry, VmEntry, World, Env, Daemon}
use bmd.Daemon.Comport.{used_ports}
use bmd.Daemon.Events.{set_timer, send}
use bmd.Daemon.Machine.{start_virtual_machine}
use bmd.Daemon.Entries.{lookup_vm_by_name, put_vm, compare_vm_conf_entry}
use bmd.Server.Requests.{
  Xucred, CommandEnv, add, get_string, mem, is_minus_one, check_owner, answer,
}

pub allowed_vm : Xucred → (VmEntry → NvList × Daemon) → Daemon → Option VmEntry → NvList × Daemon
unfolding answer check_owner
allowed_vm peer f d none = (answer empty (some (codes "VM not found")), d)
allowed_vm peer f d (some e) =
    if check_owner e.conf.conf peer then f e else (answer empty (some (codes "VM not found")), d)

pub named_vm : Xucred → (VmEntry → NvList × Daemon) → Daemon → Option Str → NvList × Daemon
unfolding allowed_vm lookup_vm_by_name
named_vm peer f d none = (empty, record d { world = record d.world { dead = true } })
named_vm peer f d (some name) = allowed_vm peer f d (lookup_vm_by_name d.vm_list name)

-- What all commands on one machine start with. A request without a name ends the daemon.
unfoldable pub with_vm : Xucred → NvList → (VmEntry → NvList × Daemon) → Daemon → NvList × Daemon
unfolding named_vm get_string
with_vm peer nv f d = named_vm peer f d (get_string nv (codes "name"))

last_named : List VmConfEntry → Str → Option VmConfEntry → Option VmConfEntry
unfolding str_eq
last_named [] name ret = ret
last_named (c ∷ cs) name ret = last_named cs name (if str_eq c.conf.name name then some c else ret)

replace_conf : VmEntry → Option VmConfEntry → Option VmEntry
unfolding compare_vm_conf_entry
replace_conf e none = none
replace_conf e (some c) =
    if is_zero (compare_vm_conf_entry c e.conf) then some e else some (record e { conf = c })

-- `none` is -1. The last configuration with the machine's name counts.
unfoldable pub search_and_replace_vm_conf : Option (List VmConfEntry) → VmEntry → Option VmEntry
unfolding last_named replace_conf
search_and_replace_vm_conf none e = none
search_and_replace_vm_conf (some confs) e = replace_conf e (last_named confs e.conf.conf.name none)

-- The other end of a null modem: its last letter is changed.
swap_last : Str → Str
swap_last [] = []
swap_last (c ∷ []) = (if c == b'A' then b'B' else if c == b'B' then b'A' else c) ∷ []
swap_last (c ∷ d ∷ s) = c ∷ swap_last (d ∷ s)

unfoldable pub get_peer_comport : Option Str → Option Str
unfolding swap_last
get_peer_comport none = none
get_peer_comport (some port) = if leb 11 (length port) then some (swap_last port) else none

open_peer : CommandEnv → Option Str → Option ℕ
open_peer x none = none
open_peer x (some fn) = x.open_port fn

unfoldable pub open_comport : CommandEnv → Option Str → Option ℕ
unfolding get_peer_comport open_peer
open_comport x port = open_peer x (get_peer_comport port)

-- The com port that is assigned, else the configured one.
pub comport_of : VmEntry → Option Str
comport_of e = elim e.vm.assigned_comport [ some p ↦ some p | none ↦ e.conf.conf.comport ]

add_fd : NvList → Option ℕ → NvList
unfolding add
add_fd res none = res
add_fd res (some fd) = add res (codes "_file_descriptor_") (number fd)

booted : CommandEnv → Rc × VmEntry × World → Daemon → NvList × Daemon
unfolding answer add_fd open_comport comport_of put_vm
booted x (ok, e, w) d = (
  add_fd (answer empty none) (open_comport x (comport_of e)),
  record d { vm_list = put_vm e d.vm_list; world = w },
)
booted x (_, e, w) d = (
  answer empty (some (codes "failed to start")),
  record d { vm_list = put_vm e d.vm_list; world = w },
)

boot_replaced : CommandEnv → Bool → Option VmEntry → Daemon → NvList × Daemon
unfolding answer booted
boot_replaced x install none d = (answer empty (some (codes "failed to load config file")), d)
boot_replaced x install (some e) d =
    let conf = record e.conf.conf { install = true } in
    let e' = (if install then record e { conf = record e.conf { conf = conf } } else e) in
    booted x (start_virtual_machine x.env (used_ports (put_vm e' d.vm_list)) e' d.world) d

abbrev pub is_terminate : State → Bool
is_terminate State.terminate = true
is_terminate _ = false

abbrev pub is_live : State → Bool
is_live State.load = true
is_live State.run = true
is_live _ = false

-- boot0_command in the two styles that the program has: 0, and 1 for `install`.
unfoldable pub boot0_command : CommandEnv → Bool → NvList → Xucred → Daemon → NvList × Daemon
unfolding with_vm answer search_and_replace_vm_conf boot_replaced
boot0_command x install nv peer d =
    with_vm peer nv
      (λ e.
        if is_terminate e.vm.state
        then boot_replaced x install (search_and_replace_vm_conf x.loaded e) d
        else (answer empty (some (codes "already running")), d))
      d

-- The owner of the device is changed, if it can be; the model does not keep it.
unfoldable pub showcomport_command : CommandEnv → NvList → Xucred → Daemon → NvList × Daemon
unfolding with_vm answer add add_fd open_comport comport_of
showcomport_command x nv peer d =
    with_vm peer nv
      (λ e.
        let port = comport_of e in
        let opened = add_fd empty (open_comport x port) in
        let shown : Str = elim port [ none ↦ codes "(null)" | some p ↦ p ] in
        (
          answer
              (add (if is_live e.vm.state then opened else empty) (codes "comport") (string shown))
              none,
          d,
        ))
      d

-- The text has room for every address and port.
unfoldable pub showvgaport_command : NvList → Xucred → Daemon → NvList × Daemon
unfolding with_vm answer add show_int
showvgaport_command nv peer d =
    with_vm peer nv
      (λ e.
        let fbuf = e.conf.conf.fbuf in
        let port = fbuf.ipaddr ++ codes " " ++ show_int fbuf.port in
        let shown = (if is_zero fbuf.enable then codes "(disabled)" else port) in
        (answer (add empty (codes "vgaport") (string shown)) none, d))
      d

-- The three ways to bring a machine down, by the argument `how`.
pub data How : Type 0 where
  acpi reset poweroff : How

pub take_down : How → CommandEnv → VmEntry → World → VmEntry × World
unfolding set_timer send
take_down acpi x e w =
    let w' = send (e.method.vm_acpi_poweroff e.conf.conf e.vm) w in
    (
      record e { vm = record e.vm { state = State.stop } },
      (set_timer x.env.timer_event e e.conf.conf.stop_timeout w').1,
    )
take_down reset x e w = (e, send (e.method.vm_reset e.conf.conf e.vm) w)
take_down poweroff x e w = (
  record e { vm = record e.vm { state = State.stop } },
  send (e.method.vm_poweroff e.conf.conf e.vm) w,
)

unfoldable pub vm_down_command : CommandEnv → How → NvList → Xucred → Daemon → NvList × Daemon
unfolding with_vm answer take_down put_vm
vm_down_command x how nv peer d =
    with_vm peer nv
      (λ e.
        let (e', w) = take_down how x e d.world in
        let down = record d { vm_list = put_vm e' d.vm_list; world = w } in
        (answer empty none, if is_live e.vm.state then down else d))
      d
