-- ===== src/Parser/Tokens/Joined.antt =====
-- The text of two lists of tokens, one behind the other.
use bmd.Prelude.{◌≡◌, refl, sym, Option, List, [], ◌∷◌, ◌++◌, Str}
use mathlib.Core.List.{append_assoc}
use bmd.Conf.Vars.{Variables}
use bmd.Parser.Tokens.{CfToken, Text, text, failed, fault, token_text, and_text, token_to_string}

and_text_same : (t : Text) → and_text t (λ r. text r) ≡ t
unfolding and_text
and_text_same (text s) = refl
and_text_same failed = refl
and_text_same fault = refl

join :
    (s : Str) (a b : Text)
    → and_text (and_text a (λ r. text (s ++ r))) (λ u. and_text b (λ v. text (u ++ v)))
      ≡ and_text (and_text a (λ u. and_text b (λ v. text (u ++ v)))) (λ r. text (s ++ r))
unfolding and_text
join s (text u) (text v) = simp append_assoc
join s (text u) failed = refl
join s (text u) fault = refl
join s failed b = refl
join s fault b = refl

join_first :
    (t a b : Text)
    → and_text t
        (λ s. and_text (and_text a (λ u. and_text b (λ v. text (u ++ v)))) (λ r. text (s ++ r)))
      ≡ and_text
          (and_text t (λ s. and_text a (λ r. text (s ++ r))))
          (λ u. and_text b (λ v. text (u ++ v)))
unfolding and_text
join_first (text s) a b = sym (join s a b)
join_first failed a b = refl
join_first fault a b = refl

-- The text of a list of tokens followed by another is the text of the first followed by that of the
-- second; where the first has none, because a variable is undefined or its arithmetic fails or
-- traps, the outcome is that of the first, and otherwise that of the second.
pub token_to_string-append :
    (vars : Option Variables) (ts us : List CfToken)
    → token_to_string vars (ts ++ us)
      ≡ and_text
          (token_to_string vars ts)
          (λ u. and_text (token_to_string vars us) (λ v. text (u ++ v)))
unfolding token_to_string and_text
token_to_string-append vars [] us = sym (and_text_same (token_to_string vars us))
token_to_string-append vars (t ∷ ts) us =
    rw (token_to_string-append vars ts us)
      (join_first (token_text vars t.kind) (token_to_string vars ts) (token_to_string vars us))
