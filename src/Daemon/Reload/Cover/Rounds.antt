-- ===== src/Daemon/Reload/Cover/Rounds.antt =====
-- After a reload every configuration has its machine.
use bmd.Prelude.{
  ◌≡◌, ◌≢◌, refl, sym, ap, ◌⊎◌, inl, inr, Bool, true, false, Bool-cases, Option, none, some, List,
  [], ◌∷◌, Str, All, if_both, if◌then◌else◌,
}
use mathlib.Core.Path.{subst}
use bmd.Daemon.{VmConfEntry, VmEntry, World, Env, Daemon}
use bmd.Daemon.Reload.{
  next_conf, reload_conf, reload_confs, reload_entry, reload_entry_to, cons_some, reload_entries,
  forget_new, finish_reload, reload_virtual_machines,
}
use bmd.Daemon.Reload.Cover.{addrs, IsWellFormed, IsCovered}
use bmd.Daemon.Reload.Cover.Round.{IsRound, IsRoundStep, reload_found-IsRoundStep}

-- The names of the configurations are different.
abbrev pub HasNames : List VmConfEntry → Type 0
HasNames [] = Unit
HasNames (c ∷ cs) = All (λ k. c.conf.name ≢ k.conf.name) cs × HasNames cs

next_conf-IsCovered :
    (k : VmConfEntry) (rest : Daemon → Bool × Daemon) (d : Daemon) (step : Option Daemon)
    → IsRoundStep k step
    → ((d' : Daemon) → IsRound k d' → IsCovered k (rest d').1.vm_list)
    → IsRound k d
    → IsCovered k (next_conf rest d step).1.vm_list
unfolding next_conf
next_conf-IsCovered k rest d none round more before = before.1
next_conf-IsCovered k rest d (some d') round more before = more d' round

-- What is covered stays so, whatever other configurations follow.
reload_confs-IsCovered :
    (k : VmConfEntry) (env : Str → Env) (cs : List VmConfEntry) (d : Daemon)
    → All (λ c. c.conf.name ≢ k.conf.name) cs
    → IsRound k d
    → IsCovered k (reload_confs env cs d).1.vm_list
unfolding reload_confs reload_conf
reload_confs-IsCovered k env [] d other round = round.1
reload_confs-IsCovered k env (c ∷ cs) d other round =
    if_both (λ (r : Bool × Daemon). IsCovered k r.1.vm_list) d.world.dead _ _ round.1
      (next_conf-IsCovered k (reload_confs env cs) d _
        (reload_found-IsRoundStep k (env c.conf.name) c d _ refl round.0 (inr (other.0, round.1)))
        (λ d'. reload_confs-IsCovered k env cs d' other.1) round)

All-sym :
    (c : VmConfEntry) (cs : List VmConfEntry)
    → All (λ k. c.conf.name ≢ k.conf.name) cs
    → All (λ k. k.conf.name ≢ c.conf.name) cs
All-sym c [] other = tt
All-sym c (k ∷ cs) (o, other) = ((λ h. o (sym h)), All-sym c cs other)

-- The loop failed, or the process has ended, or all configurations are covered.
abbrev AllCovered : List VmConfEntry → Bool × Daemon → Type 0
AllCovered cs r = (r.0 ≡ false) ⊎ ((r.1.world.dead ≡ true) ⊎ All (λ k. IsCovered k r.1.vm_list) cs)

AllCovered-cons :
    (c : VmConfEntry) (cs : List VmConfEntry) (r : Bool × Daemon)
    → IsCovered c r.1.vm_list
    → AllCovered cs r
    → AllCovered (c ∷ cs) r
AllCovered-cons c cs r covered (inl h) = inl h
AllCovered-cons c cs r covered (inr (inl h)) = inr (inl h)
AllCovered-cons c cs r covered (inr (inr h)) = inr (inr (covered, h))

next_conf-AllCovered :
    (cs : List VmConfEntry) (c : VmConfEntry) (rest : Daemon → Bool × Daemon) (d : Daemon)
    (step : Option Daemon)
    → IsRoundStep c step
    → ((d' : Daemon) → IsRound c d' → AllCovered cs (rest d'))
    → AllCovered cs (next_conf rest d step)
unfolding next_conf
next_conf-AllCovered cs c rest d none round more = inl refl
next_conf-AllCovered cs c rest d (some d') round more = more d' round

if_dead-AllCovered :
    (cs : List VmConfEntry) (d : Daemon) (r : Bool × Daemon)
    → AllCovered cs r
    → AllCovered cs (if d.world.dead then (true, d) else r)
if_dead-AllCovered cs d r h = elim (Bool-cases d.world.dead) [
  | inl dead ↦
      subst (λ (b : Bool). AllCovered cs (if b then (true, d) else r)) (sym dead) (inr (inl dead))
  | inr alive ↦ subst (λ (b : Bool). AllCovered cs (if b then (true, d) else r)) (sym alive) h
]

reload_confs-AllCovered :
    (env : Str → Env) (cs : List VmConfEntry) (d : Daemon)
    → HasNames cs
    → IsWellFormed d
    → AllCovered cs (reload_confs env cs d)
unfolding reload_confs reload_conf
reload_confs-AllCovered env [] d names wf = inr (inr tt)
reload_confs-AllCovered env (c ∷ cs) d (other, names) wf = if_dead-AllCovered (c ∷ cs) d _ (
    next_conf-AllCovered (c ∷ cs) c (reload_confs env cs) d _
      (reload_found-IsRoundStep c (env c.conf.name) c d _ refl wf (inl refl))
      (λ d' round.
        AllCovered-cons c cs (reload_confs env cs d')
          (reload_confs-IsCovered c env cs d' (All-sym c cs other) round)
          (reload_confs-AllCovered env cs d' names round.0)))

-- A machine on the list has the configuration.
abbrev pub IsServed : VmConfEntry → List VmEntry → Type 0
IsServed c [] = ⊥
IsServed c (e ∷ es) = (e.conf ≡ c) ⊎ IsServed c es

cons_some-IsServed :
    (c : VmConfEntry) (x : Option VmEntry) (es : List VmEntry)
    → IsServed c es
    → IsServed c (cons_some x es)
unfolding cons_some
cons_some-IsServed c none es h = h
cons_some-IsServed c (some e) es h = inr h

entry-IsServed :
    (c : VmConfEntry) (env : Env) (new : Option VmConfEntry) (e : VmEntry) (w : World)
    (es : List VmEntry)
    → new ≡ some c
    → IsServed c (cons_some (reload_entry_to new env e w).0 es)
unfolding reload_entry_to cons_some
entry-IsServed c env none e w es h = cc
entry-IsServed c env (some k) e w es h = inl (cc h)

reload_entries-IsServed :
    (c : VmConfEntry) (env : Str → Env) (es : List VmEntry) (w : World)
    → IsCovered c es
    → IsServed c (reload_entries env es w).0
unfolding reload_entries reload_entry
reload_entries-IsServed c env [] w covered = covered
reload_entries-IsServed c env (e ∷ es) w (inl g) =
    entry-IsServed c (env e.conf.conf.name) e.new_conf e w _ g.0
reload_entries-IsServed c env (e ∷ es) w (inr g) =
    cons_some-IsServed c _ _ (reload_entries-IsServed c env es _ g)

All-IsServed :
    (env : Str → Env) (cs : List VmConfEntry) (es : List VmEntry) (w : World)
    → All (λ k. IsCovered k es) cs
    → All (λ k. IsServed k (reload_entries env es w).0) cs
All-IsServed env [] es w h = tt
All-IsServed env (c ∷ cs) es w (h, hs) =
    (reload_entries-IsServed c env es w h, All-IsServed env cs es w hs)

finish_reload-All :
    (env : Str → Env) (cs : List VmConfEntry) (r : Bool × Daemon)
    → AllCovered cs r
    → (finish_reload env r).0 ≡ true
    → (finish_reload env r).1.world.dead ≡ false
    → All (λ k. IsServed k (finish_reload env r).1.vm_list) cs
unfolding finish_reload
finish_reload-All env cs (false, d) covered done alive = cc
finish_reload-All env cs (true, d) (inl h) done alive = cc
finish_reload-All env cs (true, d) (inr (inl h)) done alive = cc (h, alive)
finish_reload-All env cs (true, d) (inr (inr all)) done alive = elim (Bool-cases d.world.dead) [
  | inl dead ↦ cc (dead, alive)
  | inr living ↦
      let (es, w) = reload_entries env d.vm_list d.world in
      let same : Bool × Daemon = (true, d) in
      let new : Bool × Daemon = (true, record d { vm_list = es; world = w }) in
      subst (λ (b : Bool). All (λ k. IsServed k (if b then same else new).1.vm_list) cs)
        (sym living) (All-IsServed env cs d.vm_list d.world all)
]

addrs-forget_new : (es : List VmEntry) → addrs (forget_new es) ≡ addrs es
unfolding forget_new
addrs-forget_new [] = refl
addrs-forget_new (e ∷ es) = ap (λ t. e.addr ∷ t) (addrs-forget_new es)

-- Where no two configurations that are read have one name, no two machines have one address, and no
-- machine has a free one, after a reload that succeeds and leaves the daemon's process alive each
-- configuration is that of a machine on the list.
pub reload_virtual_machines-All :
    (env : Str → Env) (confs : List VmConfEntry) (d : Daemon)
    → HasNames confs
    → IsWellFormed d
    → (reload_virtual_machines env (some confs) d).0 ≡ true
    → (reload_virtual_machines env (some confs) d).1.world.dead ≡ false
    → All (λ c. IsServed c (reload_virtual_machines env (some confs) d).1.vm_list) confs
unfolding reload_virtual_machines
reload_virtual_machines-All env confs d names wf =
    let d' : Daemon = record d { vm_list = forget_new d.vm_list } in
    let wf' : IsWellFormed d' = rw (addrs-forget_new d.vm_list) wf in
    finish_reload-All env confs (reload_confs env confs d')
      (reload_confs-AllCovered env confs d' names wf')
