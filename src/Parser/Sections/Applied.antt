-- ===== src/Parser/Sections/Applied.antt =====
-- The templates that a virtual machine applies: each at most once, so that vm_conf_set_params ends.
use bmd.Prelude.{
  ℕ, zero, suc, ◌≤◌, ◌<◌, ◌==◌, ==_iff, ◌≡◌, refl, ap, inl, inr, Bool-cases, if_both, Bool, Option,
  none, some, List, [], ◌∷◌, Str, codes, case_eq, arith,
}
use mathlib.Core.Path.{subst}
use bmd.Conf.{QueueTail, null_tail, valid_tail, written_null_tail}
use bmd.Conf.Vars.{VarTree}
use bmd.Parser.Tokens.{CfToken, TokenKind, Text}
use bmd.Parser.Params.{ParserEntry, parser_list, find_parser}
use bmd.Parser.Sections.{
  CfValue, CfParam, CfSection, Loading, Run, done, fault, out_of_fuel, and_run, SectionEnv,
  lookup_template, mark_applied, apply_args, apply_template, apply_text, parse_apply, each, run_on,
  store_value, set_text, clear_values, set_known, set_variable, set_key, set_params_with,
  vm_conf_set_params, store_var,
}
use bmd.Parser.Sections.Marked.{
  AreMarked, unapplied, AreMarked-refl, AreMarked-trans, unapplied-le, lookup_template_name,
  mark-IsStep,
}

-- The outcome of a run: it is over, and marks templates at most, or the process has ended.
abbrev pub Ends : List CfSection → Run → Type 0
Ends ts (done st) = AreMarked ts st.templates
Ends ts fault = Unit {0}
Ends ts out_of_fuel = ⊥

Ends-after : (ts us : List CfSection) (r : Run) → AreMarked ts us → Ends us r → Ends ts r
Ends-after ts us (done st) m h = AreMarked-trans ts us st.templates m h
Ends-after ts us fault m h = tt
Ends-after ts us out_of_fuel m h = h

Ends-eq : (ts us : List CfSection) (r : Run) → us ≡ ts → Ends us r → Ends ts r
Ends-eq ts us r e h = subst (λ vs. Ends vs r) e h

and_run-Ends :
    (ts : List CfSection) (r : Run) (f : Loading → Run)
    → Ends ts r
    → ((st : Loading) → AreMarked ts st.templates → Ends st.templates (f st))
    → Ends ts (and_run r f)
and_run-Ends ts (done st) f h k = Ends-after ts st.templates (f st) h (k st h)
and_run-Ends ts fault f h k = tt
and_run-Ends ts out_of_fuel f h k = h

-- What is needed of the calls for the templates, of which `n` may follow one another.
abbrev IsGood : ℕ → (List CfParam → Loading → Run) → Type 0
IsGood n f =
    (ps : List CfParam) (st : Loading) → unapplied st.templates < n → Ends st.templates (f ps st)

module _ (n : ℕ) (set_params : List CfParam → Loading → Run) (good : IsGood n set_params) where
  apply_args-Ends :
      (tp : CfSection) (st : Loading) (args : Option VarTree) (name : Str)
      → lookup_template st.templates name ≡ some tp
      → tp.applied ≡ 0
      → unapplied st.templates ≤ n
      → Ends st.templates (apply_args set_params tp st args)
  unfolding apply_args
  apply_args-Ends tp st none name h z l = tt
  apply_args-Ends tp st (some args) name h z l =
      let e = lookup_template_name st.templates name tp h in
      let (m, d) = mark-IsStep st.templates name tp h z in
      rw e (
        Ends-after st.templates (mark_applied st.templates name) _ m (
          and_run-Ends (mark_applied st.templates name) _ _ (good tp.params _ (omega arith))
            (λ st' k. AreMarked-refl st'.templates)))

  apply_template-Ends :
      (args : List (List CfToken)) (st : Loading) (name : Str) (o : Option CfSection)
      → lookup_template st.templates name ≡ o
      → unapplied st.templates ≤ n
      → Ends st.templates (apply_template set_params args st o)
  unfolding apply_template
  apply_template-Ends args st name none h l = AreMarked-refl st.templates
  apply_template-Ends args st name (some tp) h l = elim (Bool-cases (tp.applied == 0)) [
    | inl z ↦ rw z (apply_args-Ends tp st _ name h ((==_iff tp.applied 0).0 z) l)
    | inr z ↦ rw z (AreMarked-refl st.templates)
  ]

  apply_text-Ends :
      (vl : CfValue) (st : Loading) (t : Text)
      → unapplied st.templates ≤ n
      → Ends st.templates (apply_text set_params vl st t)
  unfolding apply_text
  apply_text-Ends vl st (Text.text name) l = apply_template-Ends vl.args st name _ refl l
  apply_text-Ends vl st Text.failed l = AreMarked-refl st.templates
  apply_text-Ends vl st Text.fault l = tt

  each-Ends :
      (f : CfValue → Loading → Run)
      → ((v : CfValue) (st : Loading) → unapplied st.templates ≤ n → Ends st.templates (f v st))
      → (vs : List CfValue) (st : Loading) → unapplied st.templates ≤ n
      → Ends st.templates (each f vs st)
  unfolding each
  each-Ends f k [] st l = AreMarked-refl st.templates
  each-Ends f k (v ∷ vs) st l =
      and_run-Ends st.templates (f v st) _ (k v st l)
        (λ st' m. each-Ends f k vs st' (omega (arith, unapplied-le st.templates st'.templates m)))

  run_on-Ends :
      (tail : QueueTail) (st st' : Loading)
      → st'.templates ≡ st.templates
      → Ends st.templates (run_on tail st')
  unfolding run_on
  run_on-Ends null_tail st st' same = rw same (AreMarked-refl st.templates)
  run_on-Ends valid_tail st st' same = rw same (AreMarked-refl st.templates)
  run_on-Ends written_null_tail st st' same = tt

  set_text-Ends :
      (store : Loading → Str → Loading) (st : Loading) (t : Text)
      → ((s : Str) → (store st s).templates ≡ st.templates)
      → Ends st.templates (set_text store st t)
  unfolding set_text
  set_text-Ends store st (Text.text s) same = run_on-Ends _ st (store st s) (same s)
  set_text-Ends store st Text.failed same = AreMarked-refl st.templates
  set_text-Ends store st Text.fault same = tt

  store_value-templates :
      (x : SectionEnv) (key : Str) (e : Option ParserEntry) (st : Loading) (s : Str)
      → (store_value x key e st s).templates ≡ st.templates
  unfolding store_value
  store_value-templates x key none st s = refl
  store_value-templates x key (some e) st s = refl

  clear_values-templates :
      (e : Option ParserEntry) (append : Bool) (st : Loading)
      → (clear_values e append st).templates ≡ st.templates
  unfolding clear_values
  clear_values-templates none append st = refl
  clear_values-templates (some e) append st = refl

  set_variable-Ends :
      (key : Str) (vs : List CfValue) (st : Loading) → Ends st.templates (set_variable key vs st)
  unfolding set_variable store_var
  set_variable-Ends key [] st = tt
  set_variable-Ends key (v ∷ vs) st = set_text-Ends (store_var key) st _ (λ s. refl)

  set_known-Ends :
      (x : SectionEnv) (key : Str) (p : CfParam) (e : Option ParserEntry) (st : Loading)
      → unapplied st.templates ≤ n
      → Ends st.templates (set_known x key p e st)
  unfolding set_known
  set_known-Ends x key p e st l =
      let same = clear_values-templates e p.append st in
      Ends-eq _ _ _ same (
        each-Ends _
          (λ v s k. set_text-Ends (store_value x key e) s _ (store_value-templates x key e s))
          p.vals (clear_values e p.append st) (omega (arith, ap unapplied same)))

  set_key-Ends :
      (x : SectionEnv) (p : CfParam) (st : Loading) (k : TokenKind)
      → unapplied st.templates ≤ n
      → Ends st.templates (set_key x set_params p st k)
  unfolding set_key parse_apply
  set_key-Ends x p st (TokenKind.var key) l = set_variable-Ends key p.vals st
  set_key-Ends x p st (TokenKind.str key) l =
      if_both (Ends st.templates) (case_eq key (codes ".apply")) _ _
        (each-Ends (parse_apply set_params) (λ v s. apply_text-Ends v s _) p.vals st l)
        (set_known-Ends x key p (find_parser (parser_list x.parser) key) st l)
  set_key-Ends x p st (TokenKind.expr e) l = tt
  set_key-Ends x p st TokenKind.num l = tt

  set_params_with-Ends :
      (x : SectionEnv) (ps : List CfParam) (st : Loading)
      → unapplied st.templates ≤ n
      → Ends st.templates (set_params_with x set_params ps st)
  unfolding set_params_with
  set_params_with-Ends x [] st l = AreMarked-refl st.templates
  set_params_with-Ends x (p ∷ ps) st l =
      and_run-Ends st.templates (set_key x set_params p st p.key.kind) _
        (set_key-Ends x p st p.key.kind l)
        (λ st' m.
          set_params_with-Ends x ps st' (omega (arith, unapplied-le st.templates st'.templates m)))

-- With more fuel than there are templates that are not applied, the assignment of parameters never
-- runs out of it: either the process ends by a fault, or each template is as it was, or was not
-- applied before and is marked as applied once.
pub vm_conf_set_params-Ends :
    (fuel : ℕ) (x : SectionEnv) (ps : List CfParam) (st : Loading)
    → unapplied st.templates < fuel
    → Ends st.templates (vm_conf_set_params fuel x ps st)
unfolding vm_conf_set_params
vm_conf_set_params-Ends zero x ps st h = elim h [ ]
vm_conf_set_params-Ends (suc fuel) x ps st h =
    set_params_with-Ends fuel (vm_conf_set_params fuel x)
      (λ qs st' k. vm_conf_set_params-Ends fuel x qs st' k) x ps st (omega arith)
