-- ===== src/Daemon/Reload/Updated.antt =====
-- What reload_existing leaves of a machine.
use bmd.Prelude.{◌≤◌, ◌≡◌, refl, ap, ◌∙◌, Option, some, List, Str, arith, max_ℤ, ℤ, pos, if_both}
use bmd.Conf.{Boot}
use bmd.Vm.{State}
use bmd.Daemon.{VmConfEntry, VmEntry, World, Env}
use bmd.Daemon.Events.{send}
use bmd.Daemon.Machine.Fixed.{start_virtual_machine-IsSame}
use bmd.Daemon.Machine.Grows.{set_timer_next, start_virtual_machine_next}
use bmd.Daemon.Reload.{
  power_off_to, reload_changed, reload_down, reload_up, reload_boot, reopen_log, reload_existing,
}

-- What reload_existing leaves of a machine that has the configuration's name.
abbrev pub IsUpdated : VmConfEntry → VmEntry → World → VmEntry × World → Type 0
IsUpdated c e w (e', w') =
    (e'.addr ≡ e.addr) × (e'.conf.conf.name ≡ c.conf.name) × (w.next ≤ w'.next)

reload_up-IsUpdated :
    (env : Env) (used : List (Option Str)) (c : VmConfEntry) (e : VmEntry) (w : World)
    → e.conf.conf.name ≡ c.conf.name
    → IsUpdated c e w (reload_up env used c e w)
unfolding reload_up
reload_up-IsUpdated env used c e w named =
    let same = start_virtual_machine-IsSame env used (record e { conf = c }) w in
    ground (
      arith,
      named,
      same.0,
      ap (λ (k : VmConfEntry). k.conf.name) same.1,
      start_virtual_machine_next env used (record e { conf = c }) w,
    )

power_off-IsUpdated :
    (st : State) (env : Env) (timeout : ℤ) (c : VmConfEntry) (e : VmEntry) (w : World)
    → e.conf.conf.name ≡ c.conf.name
    → IsUpdated c e w (power_off_to st env timeout e w)
unfolding power_off_to send
power_off-IsUpdated st env timeout c e w named =
    (refl, named, set_timer_next env.timer_event e timeout _)

reload_down-IsUpdated :
    (env : Env) (c : VmConfEntry) (e : VmEntry) (w : World)
    → e.conf.conf.name ≡ c.conf.name
    → IsUpdated c e w (reload_down env c.conf e w)
unfolding reload_down
reload_down-IsUpdated env c e w named =
    ground (arith, named, power_off-IsUpdated State.stop env c.conf.stop_timeout c e w named)

reload_changed-IsUpdated :
    (env : Env) (c : VmConfEntry) (e : VmEntry) (w : World)
    → e.conf.conf.name ≡ c.conf.name
    → IsUpdated c e w (reload_changed env c.conf e w)
unfolding reload_changed
reload_changed-IsUpdated env c e w named = ground (
  arith,
  named,
  power_off-IsUpdated State.restart env c.conf.stop_timeout c e w named,
  set_timer_next env.timer_event e (max_ℤ c.conf.boot_delay (pos 1)) w,
)

reload_boot-IsUpdated :
    (b : Boot) (env : Env) (used : List (Option Str)) (c : VmConfEntry) (e : VmEntry) (w : World)
    → e.conf.conf.name ≡ c.conf.name
    → IsUpdated c e w (reload_boot b env used c e w)
unfolding reload_boot
reload_boot-IsUpdated Boot.no env used c e w named = reload_down-IsUpdated env c e w named
reload_boot-IsUpdated Boot.yes env used c e w named = reload_up-IsUpdated env used c e w named
reload_boot-IsUpdated Boot.always env used c e w named = reload_up-IsUpdated env used c e w named
reload_boot-IsUpdated Boot.oneshot env used c e w named = (refl, named, omega arith)

reopen_log_same :
    (env : Env) (e : VmEntry)
    → ((reopen_log env e).addr ≡ e.addr) × ((reopen_log env e).conf ≡ e.conf)
unfolding reopen_log
reopen_log_same env e = ground arith

pub reload_existing-IsUpdated :
    (env : Env) (used : List (Option Str)) (c : VmConfEntry) (e : VmEntry) (w : World)
    → e.conf.conf.name ≡ c.conf.name
    → IsUpdated c e w (reload_existing env used c e w)
unfolding reload_existing
reload_existing-IsUpdated env used c e w named =
    let e' : VmEntry = record (reopen_log env e) { new_conf = some c } in
    let same = reopen_log_same env e in
    let named' : e'.conf.conf.name ≡ c.conf.name =
      ap (λ (k : VmConfEntry). k.conf.name) same.1 ∙ named in
    let both : IsUpdated c e' w (reload_existing env used c e w) =
      if_both (IsUpdated c e' w) _ _ _ (reload_changed-IsUpdated env c e' w named') (
        if_both (IsUpdated c e' w) _ _ _ (refl, named', omega arith)
          (reload_boot-IsUpdated c.conf.boot env used c e' w named')) in
    (both.0 ∙ same.0, both.1, both.2)
