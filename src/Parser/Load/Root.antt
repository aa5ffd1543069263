-- ===== src/Parser/Load/Root.antt =====
-- The global sections that count.
use bmd.Prelude.{
  ◌≡◌, refl, none, some, List, [], ◌∷◌, Bool-cases, inl, inr, ◌==◌, if◌then◌else◌, Option-cases,
  sym, ◌∙◌, true, false,
}
use bmd.Conf.Vars.{Variables}
use bmd.Global.{GlobalConf}
use bmd.Parser.Sections.{CfSection}
use bmd.Parser.Globals.{gl_conf_set_params}
use bmd.Parser.Load.{load_globals}

-- The sections of the files that root owns.
abbrev pub of_root : List CfSection → List CfSection
of_root [] = []
of_root (s ∷ ss) = let rest = of_root ss in if s.owner == 0 then s ∷ rest else rest

root_none :
    (gc : GlobalConf) (vars : Variables) (s : CfSection) (ss : List CfSection)
    → (s.owner == 0) ≡ true
    → gl_conf_set_params gc vars s.params ≡ none
    → load_globals gc vars (s ∷ ss) ≡ none
unfolding load_globals
root_none gc vars s ss root e = rw (root, e) refl

root_some :
    (gc gc' : GlobalConf) (vars vars' : Variables) (s : CfSection) (ss : List CfSection)
    → (s.owner == 0) ≡ true
    → gl_conf_set_params gc vars s.params ≡ some (gc', vars')
    → load_globals gc vars (s ∷ ss) ≡ load_globals gc' vars' ss
unfolding load_globals
root_some gc gc' vars vars' s ss root e = rw (root, e) refl

other_user :
    (gc : GlobalConf) (vars : Variables) (s : CfSection) (ss : List CfSection)
    → (s.owner == 0) ≡ false
    → load_globals gc vars (s ∷ ss) ≡ load_globals gc vars ss
unfolding load_globals
other_user gc vars s ss other = rw other refl

-- The settings and the variables that the global sections leave are those of root's files alone: a
-- section in the file of another user changes nothing.
pub load_globals-of_root :
    (gc : GlobalConf) (vars : Variables) (ss : List CfSection)
    → load_globals gc vars ss ≡ load_globals gc vars (of_root ss)
load_globals-of_root gc vars [] = refl
load_globals-of_root gc vars (s ∷ ss) = elim (Bool-cases (s.owner == 0)) [
  | inr other ↦ rw other (other_user gc vars s ss other ∙ load_globals-of_root gc vars ss)
  | inl root ↦ elim (Option-cases (gl_conf_set_params gc vars s.params)) [
    | inl e ↦
        rw root (root_none gc vars s ss root e ∙ sym (root_none gc vars s (of_root ss) root e))
    | inr ((gc', vars'), e) ↦ rw root (
        root_some gc gc' vars vars' s ss root e
        ∙ load_globals-of_root gc' vars' ss
        ∙ sym (root_some gc gc' vars vars' s (of_root ss) root e))
  ]
]
