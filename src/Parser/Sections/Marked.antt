-- ===== src/Parser/Sections/Marked.antt =====
-- The templates that parse_apply marks as applied.
use bmd.Prelude.{
  length, ℕ, ◌+◌, ◌≤◌, ◌<◌, ◌==◌, ◌≡◌, refl, ◌⊎◌, inl, inr, Bool-cases, some, List, [], ◌∷◌, Str,
  str_eq, str_eq_iff, arith, if◌then◌else◌,
}
use bmd.Parser.Sections.{CfSection, lookup_template, mark_applied}

-- A template is as it was, or it was not applied before and is now, once.
abbrev pub IsMarked : CfSection → CfSection → Type 0
IsMarked t u = (u ≡ t) ⊎ ((t.applied ≡ 0) × (u ≡ record t { applied = 1 }))

abbrev pub AreMarked : List CfSection → List CfSection → Type 0
AreMarked [] [] = Unit {0}
AreMarked [] (u ∷ us) = ⊥
AreMarked (t ∷ ts) [] = ⊥
AreMarked (t ∷ ts) (u ∷ us) = IsMarked t u × AreMarked ts us

-- The number of templates that are not applied.
pub unapplied : List CfSection → ℕ
unapplied [] = 0
unapplied (t ∷ ts) = (if t.applied == 0 then 1 else 0) + unapplied ts

pub unapplied-le_length : (ts : List CfSection) → unapplied ts ≤ length ts
unfolding unapplied
unapplied-le_length [] = omega arith
unapplied-le_length (t ∷ ts) = ground (arith, unapplied-le_length ts)

pub AreMarked-refl : (ts : List CfSection) → AreMarked ts ts
AreMarked-refl [] = tt
AreMarked-refl (t ∷ ts) = (inl refl, AreMarked-refl ts)

pub IsMarked-trans : (t u v : CfSection) → IsMarked t u → IsMarked u v → IsMarked t v
IsMarked-trans t u v h k = ground arith

pub AreMarked-trans :
    (ts us vs : List CfSection) → AreMarked ts us → AreMarked us vs → AreMarked ts vs
AreMarked-trans [] [] [] h k = tt
AreMarked-trans [] [] (v ∷ vs) h k = k
AreMarked-trans [] (u ∷ us) vs h k = elim h [ ]
AreMarked-trans (t ∷ ts) [] vs h k = elim h [ ]
AreMarked-trans (t ∷ ts) (u ∷ us) [] h k = k
AreMarked-trans (t ∷ ts) (u ∷ us) (v ∷ vs) h k =
    (IsMarked-trans t u v h.0 k.0, AreMarked-trans ts us vs h.1 k.1)

pub IsMarked-le :
    (t u : CfSection)
    → IsMarked t u
    → (if u.applied == 0 then 1 else 0) ≤ (if t.applied == 0 then 1 else 0)
IsMarked-le t u h = ground arith

pub unapplied-le : (ts us : List CfSection) → AreMarked ts us → unapplied us ≤ unapplied ts
unfolding unapplied
unapplied-le [] [] h = omega arith
unapplied-le [] (u ∷ us) h = elim h [ ]
unapplied-le (t ∷ ts) [] h = elim h [ ]
unapplied-le (t ∷ ts) (u ∷ us) h = omega (arith, IsMarked-le t u h.0, unapplied-le ts us h.1)

pub lookup_template_name :
    (ts : List CfSection) (name : Str) (tp : CfSection)
    → lookup_template ts name ≡ some tp
    → tp.name ≡ name
unfolding lookup_template
lookup_template_name [] name tp h = cc
lookup_template_name (t ∷ ts) name tp h = elim (Bool-cases (str_eq t.name name)) [
  | inl e ↦ cc ((str_eq_iff t.name name).0 e, rw e at h)
  | inr e ↦ lookup_template_name ts name tp (rw e at h)
]

-- What the mark of a template does to the list.
abbrev pub IsStep : List CfSection → List CfSection → Type 0
IsStep ts us = AreMarked ts us × (unapplied us < unapplied ts)

pub IsStep-here :
    (t : CfSection) (ts : List CfSection)
    → t.applied ≡ 0
    → IsStep (t ∷ ts) (record t { applied = t.applied + 1 } ∷ ts)
unfolding unapplied
IsStep-here t ts z = ((inr (z, rw z), AreMarked-refl ts), ground (arith, z))

pub mark-IsStep :
    (ts : List CfSection) (name : Str) (tp : CfSection)
    → lookup_template ts name ≡ some tp
    → tp.applied ≡ 0
    → IsStep ts (mark_applied ts name)
unfolding lookup_template mark_applied unapplied
mark-IsStep [] name tp h z = cc
mark-IsStep (t ∷ ts) name tp h z = elim (Bool-cases (str_eq t.name name)) [
  | inl e ↦
      let same : some t ≡ some tp = rw e at h in
      let here : t.applied ≡ 0 = cc (same, z) in rw e (IsStep-here t ts here)
  | inr e ↦ let (m, l) = mark-IsStep ts name tp (rw e at h) z in rw e ((inl refl, m), omega arith)
]
