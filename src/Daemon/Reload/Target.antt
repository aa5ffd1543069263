-- ===== src/Daemon/Reload/Target.antt =====
-- Where a reload that ends leaves the machines.
use bmd.Prelude.{
  ◌≡◌, refl, sym, ◌⊎◌, inl, inr, Bool, true, false, ◌==◌, Option, none, some, List, [], ◌∷◌, Str,
  All, arith, if_both, ltb_ℤ, pos,
}
use mathlib.Core.Path.{subst}
use bmd.Conf.{Boot, VmConf}
use bmd.Vm.{State, VmMethod}
use bmd.Daemon.{VmConfEntry, VmEntry, World, Env, Daemon}
use bmd.Daemon.Comport.{used_ports}
use bmd.Daemon.Machine.Fixed.{start_virtual_machine-IsSame}
use bmd.Daemon.Reload.{
  is_no, reload_created, reload_found, next_conf, boot_new, power_off_to, reload_changed,
  reload_down, reload_up, reload_boot, reopen_log, reload_existing, reload_conf, reload_confs,
  reload_gone, reload_gone_in, reload_entry, reload_entry_to, cons_some, reload_entries, forget_new,
  finish_reload, reload_virtual_machines,
}
use bmd.Daemon.Entries.{new_vm, enter, put_vm, create_vm_entry}

-- The same pending configuration.
reload_up_new :
    (env : Env) (used : List (Option Str)) (c : VmConfEntry) (e : VmEntry) (w : World)
    → (reload_up env used c e w).0.new_conf ≡ e.new_conf
unfolding reload_up
reload_up_new env used c e w =
    ground (arith, start_virtual_machine-IsSame env used (record e { conf = c }) w)

reload_down_new :
    (env : Env) (c : VmConf) (e : VmEntry) (w : World)
    → (reload_down env c e w).0.new_conf ≡ e.new_conf
unfolding reload_down power_off_to
reload_down_new env c e w = ground arith

reload_changed_new :
    (env : Env) (c : VmConf) (e : VmEntry) (w : World)
    → (reload_changed env c e w).0.new_conf ≡ e.new_conf
unfolding reload_changed power_off_to
reload_changed_new env c e w = ground arith

reload_boot_new :
    (b : Boot) (env : Env) (used : List (Option Str)) (c : VmConfEntry) (e : VmEntry) (w : World)
    → (reload_boot b env used c e w).0.new_conf ≡ e.new_conf
unfolding reload_boot
reload_boot_new Boot.no env used c e w = reload_down_new env c.conf e w
reload_boot_new Boot.yes env used c e w = reload_up_new env used c e w
reload_boot_new Boot.always env used c e w = reload_up_new env used c e w
reload_boot_new Boot.oneshot env used c e w = refl

pub reload_existing_new :
    (env : Env) (used : List (Option Str)) (c : VmConfEntry) (e : VmEntry) (w : World)
    → (reload_existing env used c e w).0.new_conf ≡ some c
unfolding reload_existing
reload_existing_new env used c e w =
    let e' : VmEntry = record (reopen_log env e) { new_conf = some c } in
    ground (arith, reload_changed_new env c.conf e' w, reload_boot_new c.conf.boot env used c e' w)

module _ (P : VmConfEntry → Type 0) where
  -- A pending configuration, if there is one, is a good one.
  abbrev IsGood : Option VmConfEntry → Type 0
  IsGood none = Unit
  IsGood (some c) = P c

  abbrev AreGood : List VmEntry → Type 0
  AreGood es = All (λ e. IsGood e.new_conf) es

  put_vm-AreGood :
      (e : VmEntry) (es : List VmEntry) → IsGood e.new_conf → AreGood es → AreGood (put_vm e es)
  unfolding put_vm
  put_vm-AreGood e [] g h = tt
  put_vm-AreGood e (x ∷ xs) g h =
      if_both AreGood (x.addr == e.addr) (e ∷ xs) (x ∷ put_vm e xs) (g, h.1)
        (h.0, put_vm-AreGood e xs g h.1)

  boot_new-AreGood :
      (env : Env) (e : VmEntry) (d : Daemon)
      → IsGood e.new_conf
      → AreGood d.vm_list
      → AreGood (boot_new env e d).vm_list
  unfolding boot_new
  boot_new-AreGood env e d g h =
      let same = (start_virtual_machine-IsSame env (used_ports d.vm_list) e d.world).2 in
      let started = put_vm-AreGood _ d.vm_list (subst IsGood (sym same) g) h in
      if_both (λ (x : Daemon). AreGood x.vm_list) (is_no e.conf.conf.boot) _ _ h
        (if_both (λ (x : Daemon). AreGood x.vm_list) (ltb_ℤ (pos 0) e.conf.conf.boot_delay) _ _ h
          started)

  -- What the first loop keeps.
  abbrev IsGoodStep : Option Daemon → Type 0
  IsGoodStep none = Unit
  IsGoodStep (some d) = AreGood d.vm_list

  reload_created-IsGoodStep :
      (env : Env) (c : VmConfEntry) (d : Daemon) (m : Option VmMethod)
      → P c
      → AreGood d.vm_list
      → IsGoodStep (reload_created env c (enter c d m))
  unfolding reload_created enter
  reload_created-IsGoodStep env c d none p h = tt
  reload_created-IsGoodStep env c d (some m) p h =
      let e : VmEntry = record {
        addr = d.world.next;
        vm = new_vm;
        conf = c;
        new_conf = some c;
        method = m;
      } in
      boot_new-AreGood env e _ p
        (put_vm-AreGood e (record e { new_conf = none } ∷ d.vm_list) p (tt, h))

  reload_found-IsGoodStep :
      (env : Env) (c : VmConfEntry) (d : Daemon) (found : Option VmEntry)
      → P c
      → AreGood d.vm_list
      → IsGoodStep (reload_found env c d found)
  unfolding reload_found create_vm_entry
  reload_found-IsGoodStep env c d none p h = reload_created-IsGoodStep env c d _ p h
  reload_found-IsGoodStep env c d (some e) p h =
      put_vm-AreGood _ d.vm_list
        (subst IsGood (sym (reload_existing_new env (used_ports d.vm_list) c e d.world)) p) h

  next_conf-AreGood :
      (rest : Daemon → Bool × Daemon) (d : Daemon) (step : Option Daemon)
      → ((d' : Daemon) → AreGood d'.vm_list → AreGood (rest d').1.vm_list)
      → AreGood d.vm_list
      → IsGoodStep step
      → AreGood (next_conf rest d step).1.vm_list
  unfolding next_conf
  next_conf-AreGood rest d none good h step = h
  next_conf-AreGood rest d (some d') good h step = good d' step

  reload_confs-AreGood :
      (env : Str → Env) (cs : List VmConfEntry) (d : Daemon)
      → All P cs
      → AreGood d.vm_list
      → AreGood (reload_confs env cs d).1.vm_list
  unfolding reload_confs reload_conf
  reload_confs-AreGood env [] d ps h = h
  reload_confs-AreGood env (c ∷ cs) d ps h =
      if_both (λ (x : Bool × Daemon). AreGood x.1.vm_list) d.world.dead (true, d) _ h
        (next_conf-AreGood (reload_confs env cs) d _ (λ d'. reload_confs-AreGood env cs d' ps.1) h
          (reload_found-IsGoodStep (env c.conf.name) c d _ ps.0 h))

  forget_new-AreGood : (es : List VmEntry) → AreGood (forget_new es)
  unfolding forget_new
  forget_new-AreGood [] = tt
  forget_new-AreGood (e ∷ es) = (tt, forget_new-AreGood es)

  -- A machine that the configuration wants, or that is to be removed.
  abbrev pub IsTarget : VmEntry → Type 0
  IsTarget e = (e.new_conf ≡ none) × ((e.vm.state ≡ State.remove) ⊎ P e.conf)

  abbrev IsTargetOrFreed : Option VmEntry → Type 0
  IsTargetOrFreed none = Unit
  IsTargetOrFreed (some e) = IsTarget e

  reload_gone-IsTargetOrFreed :
      (env : Env) (st : State) (e : VmEntry) (w : World)
      → e.new_conf ≡ none
      → IsTargetOrFreed (reload_gone_in st env e w).0
  unfolding reload_gone_in power_off_to
  reload_gone-IsTargetOrFreed env State.load e w h = (h, inl refl)
  reload_gone-IsTargetOrFreed env State.run e w h = (h, inl refl)
  reload_gone-IsTargetOrFreed env State.terminate e w h = tt
  reload_gone-IsTargetOrFreed env _ e w h = (h, inl refl)

  reload_entry-IsTargetOrFreed :
      (env : Env) (new : Option VmConfEntry) (e : VmEntry) (w : World)
      → new ≡ e.new_conf
      → IsGood new
      → IsTargetOrFreed (reload_entry_to new env e w).0
  unfolding reload_entry_to reload_gone
  reload_entry-IsTargetOrFreed env none e w h g =
      reload_gone-IsTargetOrFreed env e.vm.state e w (sym h)
  reload_entry-IsTargetOrFreed env (some c) e w h g = (refl, inr g)

  cons_some-IsTarget :
      (x : Option VmEntry) (es : List VmEntry)
      → IsTargetOrFreed x
      → All IsTarget es
      → All IsTarget (cons_some x es)
  unfolding cons_some
  cons_some-IsTarget none es g h = h
  cons_some-IsTarget (some e) es g h = (g, h)

  reload_entries-IsTarget :
      (env : Str → Env) (es : List VmEntry) (w : World)
      → AreGood es
      → All IsTarget (reload_entries env es w).0
  unfolding reload_entries reload_entry
  reload_entries-IsTarget env [] w h = tt
  reload_entries-IsTarget env (e ∷ es) w h =
      cons_some-IsTarget _ _
        (reload_entry-IsTargetOrFreed (env e.conf.conf.name) e.new_conf e w refl h.0)
        (reload_entries-IsTarget env es _ h.1)

  finish_reload-IsTarget :
      (env : Str → Env) (r : Bool × Daemon)
      → AreGood r.1.vm_list
      → (finish_reload env r).0 ≡ true
      → (finish_reload env r).1.world.dead ≡ false
      → All IsTarget (finish_reload env r).1.vm_list
  unfolding finish_reload
  finish_reload-IsTarget env (false, d) h done alive = cc
  finish_reload-IsTarget env (true, d) h done alive =
      ground (arith, reload_entries-IsTarget env d.vm_list d.world h)

-- After a reload that succeeds and leaves the daemon's process alive, no machine on the list has a
-- pending configuration, and each is in the state REMOVE or has one of the configurations that were
-- read: any property of all of these holds of its configuration.
pub reload_virtual_machines-IsTarget :
    (P : VmConfEntry → Type 0) (env : Str → Env) (confs : List VmConfEntry) (d : Daemon)
    → All P confs
    → (reload_virtual_machines env (some confs) d).0 ≡ true
    → (reload_virtual_machines env (some confs) d).1.world.dead ≡ false
    → All (IsTarget P) (reload_virtual_machines env (some confs) d).1.vm_list
unfolding reload_virtual_machines
reload_virtual_machines-IsTarget P env confs d ps =
    let d' : Daemon = record d { vm_list = forget_new d.vm_list } in
    finish_reload-IsTarget P env (reload_confs env confs d')
      (reload_confs-AreGood P env confs d' ps (forget_new-AreGood P d.vm_list))
