-- ===== src/Parser/Tokens.antt =====
-- The tokens of the configuration file, and the text that token_to_string of parser.c makes of them.
pub mod Joined
use bmd.Prelude.{ℕ, ℤ, Option, none, some, List, [], ◌∷◌, ◌++◌, Str, show_int}
use bmd.Conf.Vars.{Variables, get_var}
use bmd.Parser.Expr.{CfExpr, Calc, calc_expr}

-- CF_STR, CF_VAR, CF_EXPR and CF_NUM, each with the field of `struct cftoken` that it uses.
pub data TokenKind : Type 0 where
  str : Str → TokenKind
  var : Str → TokenKind
  expr : CfExpr → TokenKind
  num : TokenKind

pub record CfToken : Type 0 where
  pub kind : TokenKind
  pub filename : Str
  pub lineno : ℕ

-- A text, NULL, or the signal SIGFPE of an arithmetic expression.
pub data Text : Type 0 where
  text : Str → Text
  failed fault : Text

pub known_text : Option Str → Text
known_text none = failed
known_text (some v) = text v

pub number_text : Calc → Text
unfolding show_int
number_text (Calc.value n) = text (show_int n)
number_text Calc.failed = failed
number_text Calc.fault = fault

unfoldable pub token_text : Option Variables → TokenKind → Text
unfolding known_text number_text get_var calc_expr
token_text vars (str s) = text s
token_text none (var s) = text []
token_text (some vars) (var s) = known_text (get_var vars s)
token_text vars (expr e) = number_text (calc_expr vars e)
token_text vars num = text []

pub and_text : Text → (Str → Text) → Text
and_text (text s) f = f s
and_text failed f = failed
and_text fault f = fault

unfoldable pub token_to_string : Option Variables → List CfToken → Text
unfolding token_text and_text
token_to_string vars [] = text []
token_to_string vars (t ∷ ts) =
    let rest = token_to_string vars ts in
    and_text (token_text vars t.kind) (λ s. and_text rest (λ r. text (s ++ r)))
