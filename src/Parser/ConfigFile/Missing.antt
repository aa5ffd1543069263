-- ===== src/Parser/ConfigFile/Missing.antt =====
-- A configuration file that does not exist.
use bmd.Prelude.{
  ℕ, suc, ◌≡◌, ◌≢◌, refl, if_both, All, ◌==◌, true, false, Option, none, some, List, [], ◌∷◌, Str,
  arith,
}
use bmd.Conf.Create.Ids.{IdList}
use bmd.Vm.{State}
use bmd.Daemon.{VmEntry, Env, Daemon}
use bmd.Daemon.Reload.{reload_virtual_machines}
use bmd.Daemon.Reload.Target.{IsTarget, reload_virtual_machines-IsTarget}
use bmd.Global.{GlobalConf, no_global_conf, merge_global_conf}
use bmd.Parser.Mpool.{Mpool, Expanded, mpool_expand, new_block}
use bmd.Parser.Files.{push_file}
use bmd.Parser.Load.{LoadEnv}
use bmd.Parser.ConfigFile.{Request, loaded, settings, load_config_file, with_pool, first_vars, tree}

==_ne : (a : ℕ) → a ≢ 0 → (a == 0) ≡ false
==_ne a h = ground arith

settings_same : (r : Request) (gl : GlobalConf) → settings r no_global_conf gl ≡ gl
unfolding settings merge_global_conf
settings_same r gl = ground arith

after_missing :
    (x : LoadEnv) (files fuel : ℕ) (r : Request) (config_file : Str) (gl : GlobalConf)
    (ids : IdList) (answers : List (Option ℕ)) (pools : List Mpool)
    → x.files.realpath config_file ≡ none
    → with_pool x (suc files) fuel r config_file gl ids answers (Expanded.expanded pools)
      ≡ loaded gl (tree first_vars) ids []
unfolding with_pool push_file
after_missing x files fuel r config_file gl ids answers pools h = rw h (
    rw (settings_same r gl)
      (if_both (λ l. l ≡ loaded gl (tree first_vars) ids []) r.wanted _ _ refl refl))

removed : (es : List VmEntry) → All (IsTarget (λ c. ⊥)) es → All (λ e. e.vm.state ≡ State.remove) es
removed [] h = tt
removed (e ∷ es) h = (ground arith, removed es h.1)

-- A configuration file that does not exist is loaded as an empty one: the load succeeds, with the
-- settings and the identifiers as they were, one variable and no configuration. A reload with that
-- list which succeeds and leaves the daemon's process alive leaves only machines in the state
-- REMOVE.
pub load_missing_file :
    (x : LoadEnv) (files fuel addr : ℕ) (r : Request) (config_file : Str) (gl : GlobalConf)
    (ids : IdList) (answers : List (Option ℕ)) (env : Str → Env) (d : Daemon)
    → x.files.realpath config_file ≡ none
    → addr ≢ 0
    → (reload_virtual_machines env (some []) d).0 ≡ true
    → (reload_virtual_machines env (some []) d).1.world.dead ≡ false
    → (load_config_file x (suc files) fuel r config_file gl ids (some addr ∷ answers)
        ≡ loaded gl (tree first_vars) ids [])
      × All (λ e. e.vm.state ≡ State.remove) (reload_virtual_machines env (some []) d).1.vm_list
unfolding load_config_file mpool_expand
load_missing_file x files fuel addr r config_file gl ids answers env d h nz done alive = (
  rw (==_ne addr nz)
      (after_missing x files fuel r config_file gl ids answers (new_block addr ∷ []) h),
  removed _ (reload_virtual_machines-IsTarget (λ c. ⊥) env [] d tt done alive),
)
