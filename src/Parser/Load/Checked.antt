-- ===== src/Parser/Load/Checked.antt =====
-- The configurations that a load accepts.
use bmd.Prelude.{
  ℕ, suc, ◌<◌, ◌≡◌, refl, ap, ◌∙◌, true, Bool-cases, inl, inr, Option, none, some, List, [], ◌∷◌,
  Str, codes, str_eq_iff, is_some, length, All, arith, pos, ◌≤ℤ◌,
}
use bmd.Conf.{VmConf}
use bmd.Conf.Vars.{VarTree}
use bmd.Conf.Create.{create_vm_conf, finalize_vm_conf}
use bmd.Conf.Create.Ids.{IdList}
use bmd.Daemon.{PluginData, VmConfEntry}
use bmd.Parser.Sections.{CfSection, Loading, Run, vm_conf_set_params}
use bmd.Parser.Sections.Applied.{Ends, vm_conf_set_params-Ends}
use bmd.Parser.Sections.Marked.{AreMarked, unapplied-le_length}
use bmd.Parser.Files.{clear_applied}
use bmd.Parser.Load.{LoadEnv, check_conf, new_conf, Vms, vms, fault, out_of_fuel, accept, load_vms}

-- What every configuration has: processors, memory, a loader for the backend bhyve, and a screen
-- that is known to be on or off.
pub record IsChecked (c : VmConf) : Type 0 where
  pub ncpu : (s : Str) × (c.ncpu ≡ some s)
  pub memory : (s : Str) × (c.memory ≡ some s)
  pub loader : c.backend ≡ codes "bhyve" → (s : Str) × (c.loader ≡ some s)
  pub enable : pos 0 ≤ℤ c.fbuf.enable

given : (o : Option Str) → is_some o ≡ true → (s : Str) × (o ≡ some s)
given none h = cc
given (some s) h = (s, refl)

finalize-enable : (c : VmConf) → pos 0 ≤ℤ (finalize_vm_conf c).fbuf.enable
unfolding finalize_vm_conf
finalize-enable c = ground arith

check-IsChecked : (c : VmConf) → pos 0 ≤ℤ c.fbuf.enable → check_conf c ≡ true → IsChecked c
unfolding check_conf
check-IsChecked c screen h = record {
  ncpu = given c.ncpu (ground arith);
  memory = given c.memory (ground arith);
  loader = λ b. given c.loader (ground (arith, (str_eq_iff c.backend (codes "bhyve")).1 b));
  enable = screen;
}

accept-All :
    (st : Loading) (list : List VmConfEntry)
    → All (λ e. IsChecked e.conf) list
    → All (λ e. IsChecked e.conf) (accept st list)
unfolding accept
accept-All st list h = elim (Bool-cases (check_conf (finalize_vm_conf st.conf))) [
  | inl ok ↦ rw ok (check-IsChecked _ (finalize-enable st.conf) ok, h)
  | inr bad ↦ rw bad h
]

length-clear : (ts : List CfSection) → length (clear_applied ts) ≡ length ts
unfolding clear_applied
length-clear [] = refl
length-clear (t ∷ ts) = ap suc (length-clear ts)

length-AreMarked : (ts us : List CfSection) → AreMarked ts us → length us ≡ length ts
length-AreMarked [] [] h = refl
length-AreMarked [] (u ∷ us) h = elim h [ ]
length-AreMarked (t ∷ ts) [] h = elim h [ ]
length-AreMarked (t ∷ ts) (u ∷ us) h = ap suc (length-AreMarked ts us h.1)

-- The process ends by a fault, or there is a list of configurations that are all complete.
abbrev pub AreChecked : Vms → Type 0
AreChecked (vms ids list) = All (λ e. IsChecked e.conf) list
AreChecked fault = Unit {0}
AreChecked out_of_fuel = ⊥

load_step-AreChecked :
    (x : LoadEnv) (fuel : ℕ) (gv : VarTree) (pl : List PluginData) (templates : List CfSection)
    (s : CfSection) (ss : List CfSection) (ids : IdList) (list : List VmConfEntry) (r : Run)
    → vm_conf_set_params fuel x.sections s.params (record {
      conf = new_conf x gv s (create_vm_conf ids s.name).1;
      pl_data = pl;
      templates = clear_applied templates;
    })
      ≡ r
    → Ends (clear_applied templates) r
    → ((st : Loading)
        → length st.templates ≡ length templates
        → AreChecked
            (load_vms x fuel gv pl st.templates ss (create_vm_conf ids s.name).0 (accept st list)))
    → AreChecked (load_vms x fuel gv pl templates (s ∷ ss) ids list)
unfolding load_vms
load_step-AreChecked x fuel gv pl templates s ss ids list (Run.done st) e m next =
    rw (e, load_vms)
      (next st (length-AreMarked (clear_applied templates) st.templates m ∙ length-clear templates))
load_step-AreChecked x fuel gv pl templates s ss ids list Run.fault e m next = rw (e, load_vms) tt
load_step-AreChecked x fuel gv pl templates s ss ids list Run.out_of_fuel e m next = elim m [ ]

-- With fuel above the number of templates, the loop over the sections of machines never runs out of
-- it: the process ends by a fault, or each configuration on the list has processors, memory, a loader
-- if its backend is bhyve, and a screen that is known to be on or off.
pub load_vms-AreChecked :
    (x : LoadEnv) (fuel : ℕ) (gv : VarTree) (pl : List PluginData) (templates ss : List CfSection)
    (ids : IdList) (list : List VmConfEntry)
    → length templates < fuel
    → All (λ e. IsChecked e.conf) list
    → AreChecked (load_vms x fuel gv pl templates ss ids list)
unfolding load_vms
load_vms-AreChecked x fuel gv pl templates [] ids list l h = h
load_vms-AreChecked x fuel gv pl templates (s ∷ ss) ids list l h =
    load_step-AreChecked x fuel gv pl templates s ss ids list _ refl
      (vm_conf_set_params-Ends fuel x.sections s.params _
        (omega (arith, unapplied-le_length (clear_applied templates), length-clear templates)))
      (λ st same.
        load_vms-AreChecked x fuel gv pl st.templates ss _ (accept st list) (omega (arith, same))
          (accept-All st list h))
