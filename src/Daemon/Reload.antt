-- ===== src/Daemon/Reload.antt =====
-- The start of all machines and the reload of the configuration in bmd.c. What load_config_file
-- reads comes in as a list. Plugins' `on_reload_config` copies plugin data and is not modelled.
pub mod Updated
pub mod Target
pub mod Cover
use bmd.Prelude.{
  ℕ, suc, ◌+◌, ℤ, pos, ltb_ℤ, max_ℤ, is_zero, Bool, true, false, not, ◌&&◌, ◌==◌, Option, none,
  some, List, [], ◌∷◌, Str, str_eq, is_some, if◌then◌else◌,
}
use bmd.Conf.{Boot, VmConf}
use bmd.Conf.Nv.{compare_nvlist}
use bmd.Conf.Compare.{compare_vm_conf}
use bmd.Vm.{State, Vm, VmMethod, Rc}
use bmd.Daemon.{PluginData, VmConfEntry, VmEntry, World, Env, Daemon}
use bmd.Daemon.Comport.{used_ports}
use bmd.Daemon.Events.{set_timer, send, of_target, stop_waiting_for}
use bmd.Daemon.Machine.{find_method, start_virtual_machine}
use bmd.Daemon.Entries.{
  compare_plugins, compare_vm_conf_entry, lookup_vm_by_name, put_vm, new_vm, enter, create_vm_entry,
}

abbrev pub is_no : Boot → Bool
is_no Boot.no = true
is_no _ = false

-- What becomes of the daemon when a handler has worked on one entry.
abbrev put : Daemon → VmEntry × World → Daemon
put d (e, w) = record d { vm_list = put_vm e d.vm_list; world = w }

abbrev entry_of : Rc × VmEntry × World → VmEntry × World
entry_of (rc, e, w) = (e, w)

-- The boot of a new entry: not at all, delayed by a timer, or at once.
unfoldable pub boot_new : Env → VmEntry → Daemon → Daemon
unfolding set_timer put_vm
boot_new env e d =
    let conf = e.conf.conf in
    let delayed = record d { world = (set_timer env.timer_event e conf.boot_delay d.world).1 } in
    let now = put d (entry_of (start_virtual_machine env (used_ports d.vm_list) e d.world)) in
    if is_no conf.boot then d else if ltb_ℤ (pos 0) conf.boot_delay then delayed else now

-- The loop of start_virtual_machines. `false` is -1; the loop also ends when the process does.
unfoldable pub start_all : (Str → Env) → List VmConfEntry → Daemon → Bool × Daemon
unfolding create_vm_entry boot_new
start_all env [] d = (true, d)
start_all env (c ∷ cs) d = elim d.world.dead [
  | true ↦ (true, d)
  | false ↦ elim (create_vm_entry c d) [
    | none ↦ (false, d)
    | some (e, d') ↦ start_all env cs (boot_new (env c.conf.name) e d')
  ]
]

-- `VM_STATE(vm_ent) = s`
abbrev pub with_state : State → VmEntry → VmEntry
with_state s e = record e { vm = record e.vm { state = s } }

-- ACPI power off, the timer that forces it, and the new state.
unfoldable pub power_off_to : State → Env → ℤ → VmEntry → World → VmEntry × World
unfolding set_timer send
power_off_to s env timeout e w =
    let w' = send (e.method.vm_acpi_poweroff e.conf.conf e.vm) w in
    (with_state s e, (set_timer env.timer_event e timeout w').1)

-- The first switch of reload_virtual_machines: the configuration has changed.
unfoldable pub reload_changed : Env → VmConf → VmEntry → World → VmEntry × World
unfolding set_timer power_off_to
reload_changed env conf e w = elim e.vm.state [
  | State.terminate ↦ (e, (set_timer env.timer_event e (max_ℤ conf.boot_delay (pos 1)) w).1)
  | State.load ↦ power_off_to State.restart env conf.stop_timeout e w
  | State.run ↦ power_off_to State.restart env conf.stop_timeout e w
  | State.stop ↦ (with_state State.restart e, w)
  | _ ↦ (e, w)
]

-- The second switch, with `boot = no`.
unfoldable pub reload_down : Env → VmConf → VmEntry → World → VmEntry × World
unfolding power_off_to
reload_down env conf e w = elim e.vm.state [
  | State.load ↦ power_off_to State.stop env conf.stop_timeout e w
  | State.run ↦ power_off_to State.stop env conf.stop_timeout e w
  | State.restart ↦ (with_state State.stop e, w)
  | _ ↦ (e, w)
]

-- The second switch, with `boot = yes` or `always`.
unfoldable pub reload_up : Env → List (Option Str) → VmConfEntry → VmEntry → World → VmEntry × World
reload_up env used c e w = elim e.vm.state [
  | State.terminate ↦ entry_of (start_virtual_machine env used (record e { conf = c }) w)
  | State.stop ↦ (with_state State.restart e, w)
  | _ ↦ (e, w)
]

-- Whether two boot parameters are one.
abbrev pub same_boot : Boot → Boot → Bool
same_boot Boot.no Boot.no = true
same_boot Boot.yes Boot.yes = true
same_boot Boot.oneshot Boot.oneshot = true
same_boot Boot.always Boot.always = true
same_boot _ _ = false

reopen_log : Env → VmEntry → VmEntry
reopen_log env e =
    if is_some e.vm.logfd && is_some e.conf.conf.err_logfile
    then record e { vm = record e.vm { logfd = env.log } }
    else e

reload_boot : Boot → Env → List (Option Str) → VmConfEntry → VmEntry → World → VmEntry × World
unfolding reload_down reload_up
reload_boot Boot.no env used c e w = reload_down env c.conf e w
reload_boot Boot.yes env used c e w = reload_up env used c e w
reload_boot Boot.always env used c e w = reload_up env used c e w
reload_boot Boot.oneshot env used c e w = (e, w)

-- One round of the first loop, at a machine that is on the list.
unfoldable pub reload_existing :
    Env → List (Option Str) → VmConfEntry → VmEntry → World → VmEntry × World
unfolding compare_vm_conf_entry reload_changed reload_boot reopen_log
reload_existing env used c e w =
    let e' = record (reopen_log env e) { new_conf = some c } in
    if not (is_no c.conf.boot)
      && c.conf.reboot_on_change
      && not (is_zero (compare_vm_conf_entry c e.conf))
    then reload_changed env c.conf e' w
    else if same_boot c.conf.boot e.conf.conf.boot
    then (e', w)
    else reload_boot c.conf.boot env used c e' w

pub reload_created : Env → VmConfEntry → Option (VmEntry × Daemon) → Option Daemon
unfolding boot_new put_vm
reload_created env c none = none
reload_created env c (some (e, d)) =
    let e' = record e { new_conf = some c } in
    some (boot_new env e' (record d { vm_list = put_vm e' d.vm_list }))

pub reload_found : Env → VmConfEntry → Daemon → Option VmEntry → Option Daemon
unfolding create_vm_entry reload_existing put_vm reload_created
reload_found env c d none = reload_created env c (create_vm_entry c d)
reload_found env c d (some e) =
    some (put d (reload_existing env (used_ports d.vm_list) c e d.world))

-- One round of the first loop. `none` is the -1 of a machine that cannot be created.
unfoldable pub reload_conf : Env → VmConfEntry → Daemon → Option Daemon
unfolding lookup_vm_by_name reload_found
reload_conf env c d = reload_found env c d (lookup_vm_by_name d.vm_list c.conf.name)

pub next_conf : (Daemon → Bool × Daemon) → Daemon → Option Daemon → Bool × Daemon
next_conf rest d none = (false, d)
next_conf rest d (some d') = rest d'

-- The first loop; it also ends when the process does.
unfoldable pub reload_confs : (Str → Env) → List VmConfEntry → Daemon → Bool × Daemon
unfolding reload_conf next_conf
reload_confs env [] d = (true, d)
reload_confs env (c ∷ cs) d =
    let step = next_conf (reload_confs env cs) d (reload_conf (env c.conf.name) c d) in
    if d.world.dead then (true, d) else step

pub reload_gone_in : State → Env → VmEntry → World → Option VmEntry × World
unfolding power_off_to stop_waiting_for of_target
reload_gone_in State.load env e w =
    let (e', w') = power_off_to State.remove env e.conf.conf.stop_timeout e w in (some e', w')
reload_gone_in State.run env e w =
    let (e', w') = power_off_to State.remove env e.conf.conf.stop_timeout e w in (some e', w')
reload_gone_in State.terminate env e w = (none, stop_waiting_for (of_target e.addr) w)
reload_gone_in _ env e w = (some (with_state State.remove e), w)

-- A machine that the new configuration lacks is stopped, or freed if it does not run.
pub reload_gone : Env → VmEntry → World → Option VmEntry × World
unfolding reload_gone_in
reload_gone env e w = reload_gone_in e.vm.state env e w

pub reload_entry_to : Option VmConfEntry → Env → VmEntry → World → Option VmEntry × World
unfolding reload_gone
reload_entry_to none env e w = reload_gone env e w
reload_entry_to (some c) env e w = (some (record e { conf = c; new_conf = none }), w)

-- One round of the second loop: whether the entry stays, and as what.
unfoldable pub reload_entry : Env → VmEntry → World → Option VmEntry × World
unfolding reload_entry_to
reload_entry env e w = reload_entry_to e.new_conf env e w

cons_some : Option VmEntry → List VmEntry → List VmEntry
cons_some none es = es
cons_some (some e) es = e ∷ es

unfoldable pub reload_entries : (Str → Env) → List VmEntry → World → List VmEntry × World
unfolding reload_entry cons_some
reload_entries env [] w = ([], w)
reload_entries env (e ∷ es) w =
    let (kept, w1) = reload_entry (env e.conf.conf.name) e w in
    let (rest, w2) = reload_entries env es w1 in (cons_some kept rest, w2)

unfoldable pub forget_new : List VmEntry → List VmEntry
forget_new [] = []
forget_new (e ∷ es) = record e { new_conf = none } ∷ forget_new es

finish_reload : (Str → Env) → Bool × Daemon → Bool × Daemon
unfolding reload_entries
finish_reload env (false, d) = (false, d)
finish_reload env (true, d) =
    let (es, w) = reload_entries env d.vm_list d.world in
    if d.world.dead then (true, d) else (true, record d { vm_list = es; world = w })

-- `loaded` is what load_config_file gives; `none` if it fails.
unfoldable pub reload_virtual_machines :
    (Str → Env) → Option (List VmConfEntry) → Daemon → Bool × Daemon
unfolding reload_confs finish_reload forget_new
reload_virtual_machines env none d = (false, d)
reload_virtual_machines env (some confs) d =
    finish_reload env (reload_confs env confs (record d { vm_list = forget_new d.vm_list }))
