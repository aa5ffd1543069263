-- ===== src/Parser/Parse/Lists.antt =====
-- The lists of the context of parse: what a child leaves, and what END_UP restores.
use bmd.Prelude.{
  suc, ◌≤◌, ◌≡◌, refl, sym, ap, ◌∙◌, some, List, [], ◌∷◌, ◌++◌, Str, length, take, arith, ◌≢◌,
}
use bmd.Parser.Sections.{CfSection}
use bmd.Parser.Files.{ParserContext}
use bmd.Parser.Parse.{end_up, with_list, restore}

-- A section of which nothing changed but its count of duplicates, which can have grown.
abbrev pub IsRepeated : CfSection → CfSection → Type 0
IsRepeated t u = (u ≡ record t { duplicate = u.duplicate }) × (t.duplicate ≤ u.duplicate)

abbrev pub AreRepeated : List CfSection → List CfSection → Type 0
AreRepeated [] [] = Unit {0}
AreRepeated [] (u ∷ us) = ⊥
AreRepeated (t ∷ ts) [] = ⊥
AreRepeated (t ∷ ts) (u ∷ us) = IsRepeated t u × AreRepeated ts us

pub AreRepeated-refl : (ts : List CfSection) → AreRepeated ts ts
AreRepeated-refl [] = tt
AreRepeated-refl (t ∷ ts) = ((refl, omega arith), AreRepeated-refl ts)

IsRepeated-trans : (t u v : CfSection) → IsRepeated t u → IsRepeated u v → IsRepeated t v
IsRepeated-trans t u v (e, l) (f, m) =
    (f ∙ ap (λ (r : CfSection). record r { duplicate = v.duplicate }) e, omega arith)

AreRepeated-trans :
    (ts us vs : List CfSection) → AreRepeated ts us → AreRepeated us vs → AreRepeated ts vs
AreRepeated-trans [] [] [] h k = tt
AreRepeated-trans [] [] (v ∷ vs) h k = k
AreRepeated-trans [] (u ∷ us) vs h k = elim h [ ]
AreRepeated-trans (t ∷ ts) [] vs h k = elim h [ ]
AreRepeated-trans (t ∷ ts) (u ∷ us) [] h k = k
AreRepeated-trans (t ∷ ts) (u ∷ us) (v ∷ vs) h k =
    (IsRepeated-trans t u v h.0 k.0, AreRepeated-trans ts us vs h.1 k.1)

AreRepeated-length : (ts us : List CfSection) → AreRepeated ts us → length us ≡ length ts
AreRepeated-length [] [] h = refl
AreRepeated-length [] (u ∷ us) h = elim h [ ]
AreRepeated-length (t ∷ ts) [] h = elim h [ ]
AreRepeated-length (t ∷ ts) (u ∷ us) h = ap suc (AreRepeated-length ts us h.1)

AreRepeated-ne : (ts us : List CfSection) → AreRepeated ts us → ts ≢ [] → us ≢ []
AreRepeated-ne [] us h k = absurd (k refl)
AreRepeated-ne (t ∷ ts) [] h k = elim h [ ]
AreRepeated-ne (t ∷ ts) (u ∷ us) h k = λ e. cc e

-- A file was read before, with a section of each kind.
pub record IsSeeded (ctx : ParserContext) : Type 0 where
  pub globals : ctx.cfglobals ≢ []
  pub templates : ctx.cftemplates ≢ []
  pub vms : ctx.cfvms ≢ []
  pub files : ctx.cffiles ≢ []

-- Two contexts that differ at most in the counts of duplicates of templates and machines.
pub record Agrees (old new : ParserContext) : Type 0 where
  pub globals : new.cfglobals ≡ old.cfglobals
  pub templates : AreRepeated old.cftemplates new.cftemplates
  pub vms : AreRepeated old.cfvms new.cfvms
  pub files : new.cffiles ≡ old.cffiles
  pub cur_file : new.cur_file ≡ old.cur_file

-- The lists of a context, with more behind them. A further template or machine of the same name
-- counts as a duplicate in the first one; the global sections have no name.
pub record Extends (old now : ParserContext) : Type 0 where
  pub globals : (more : List CfSection) × (now.cfglobals ≡ old.cfglobals ++ more)
  pub templates :
      (kept : List CfSection) × (more : List CfSection) × AreRepeated old.cftemplates kept
      × (now.cftemplates ≡ kept ++ more)
  pub vms :
      (kept : List CfSection) × (more : List CfSection) × AreRepeated old.cfvms kept
      × (now.cfvms ≡ kept ++ more)
  pub files : (more : List Str) × (now.cffiles ≡ old.cffiles ++ more)

pub Agrees-refl : (ctx : ParserContext) → Agrees ctx ctx
Agrees-refl ctx = record {
  globals = refl;
  templates = AreRepeated-refl ctx.cftemplates;
  vms = AreRepeated-refl ctx.cfvms;
  files = refl;
  cur_file = refl;
}

pub Agrees-trans : (a b c : ParserContext) → Agrees a b → Agrees b c → Agrees a c
Agrees-trans a b c h k = record {
  globals = k.globals ∙ h.globals;
  templates = AreRepeated-trans a.cftemplates b.cftemplates c.cftemplates h.templates k.templates;
  vms = AreRepeated-trans a.cfvms b.cfvms c.cfvms h.vms k.vms;
  files = k.files ∙ h.files;
  cur_file = k.cur_file ∙ h.cur_file;
}

pub Agrees-IsSeeded : (a b : ParserContext) → Agrees a b → IsSeeded a → IsSeeded b
Agrees-IsSeeded a b h s = record {
  globals = λ e. s.globals (sym h.globals ∙ e);
  templates = AreRepeated-ne a.cftemplates b.cftemplates h.templates s.templates;
  vms = AreRepeated-ne a.cfvms b.cfvms h.vms s.vms;
  files = λ e. s.files (sym h.files ∙ e);
}

take-length_append {ℓ} :
    {A : Type ℓ} (old xs ys : List A) → length xs ≡ length old → take (length old) (xs ++ ys) ≡ xs
take-length_append [] [] ys h = refl
take-length_append [] (a ∷ xs) ys h = absurd (omega (arith, h))
take-length_append (o ∷ old) [] ys h = absurd (omega (arith, h))
take-length_append (o ∷ old) (a ∷ xs) ys h =
    ap (λ t. a ∷ t) (take-length_append old xs ys (omega (arith, h)))

-- END_UP takes as many elements as there were.
restored {ℓ} :
    {A : Type ℓ} (old kept more now : List A)
    → old ≢ []
    → length kept ≡ length old
    → now ≡ kept ++ more
    → end_up old now ≡ some kept
unfolding end_up
restored [] kept more now h l e = absurd (h refl)
restored (a ∷ old) kept more now h l e = rw e (ap some (take-length_append (a ∷ old) kept more l))

pub restore-Extends :
    (old now : ParserContext)
    → IsSeeded old
    → Extends old now
    → (c : ParserContext) × (restore old now ≡ some c) × Agrees old c
unfolding restore with_list
restore-Extends old now s e =
    let (more_g, eg) = e.globals in
    let (kept_t, more_t, rt, et) = e.templates in
    let (kept_v, more_v, rv, ev) = e.vms in
    let (more_f, ef) = e.files in
    let globals = restored old.cfglobals old.cfglobals more_g now.cfglobals s.globals refl eg in
    let templates =
      restored old.cftemplates kept_t more_t now.cftemplates s.templates
        (AreRepeated-length old.cftemplates kept_t rt) et in
    let vms =
      restored old.cfvms kept_v more_v now.cfvms s.vms (AreRepeated-length old.cfvms kept_v rv)
        ev in
    let files = restored old.cffiles old.cffiles more_f now.cffiles s.files refl ef in
    (
      record old { cftemplates = kept_t; cfvms = kept_v },
      rw globals (rw templates (rw vms (rw files refl))),
      record { globals = refl; templates = rt; vms = rv; files = refl; cur_file = refl },
    )
