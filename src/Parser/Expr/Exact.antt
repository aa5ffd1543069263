-- ===== src/Parser/Expr/Exact.antt =====
-- calc_expr computes the value of an expression where that value exists and fits.
use bmd.Prelude.{
  ℕ, ◌^◌, ◌<◌, ◌≤◌, ◌≡◌, refl, ap, ℤ, pos, pos_part, neg_part, ◌+ℤ◌, ◌-ℤ◌, ◌*ℤ◌, neg_ℤ, is_zero,
  false, Option, none, some, [], Str, arith,
}
use bmd.Conf.Vars.{Variables, get_var}
use bmd.Parser.Numbers.{strtol}
use bmd.Parser.Expr.{
  CfExpr, value, to_long, quot_ℤ, rem_ℤ, traps, apply_op, number_of, known_value, var_value,
  and_calc, calc_expr,
}

-- The range of a `long`.
abbrev pub IsLong : ℤ → Type 0
IsLong a = (pos_part a < 2 ^ 63) × (neg_part a ≤ 2 ^ 63)

to_long_id : (a : ℤ) → IsLong a → to_long a ≡ a
unfolding to_long
to_long_id a h = ground arith

quot-traps : (a b : ℤ) → IsLong (quot_ℤ a b) → traps a b ≡ false
unfolding quot_ℤ traps
quot-traps a b h = ground arith

-- The value of an expression in unbounded arithmetic. It exists where each number and variable can
-- be read, no divisor is 0, and each result, and the quotient of a remainder, is in the range.
pub data Evaluates (vars : Option Variables) : CfExpr → ℤ → Type 0 where
  number : (s : Str) (v : ℤ) → strtol 0 s ≡ (v, []) → Evaluates vars (CfExpr.num s) v
  unset : (s : Str) → vars ≡ none → Evaluates vars (CfExpr.var s) (pos 0)
  variable :
      (s : Str) (vs : Variables) (val : Str) (v : ℤ)
      → vars ≡ some vs
      → get_var vs s ≡ some val
      → strtol 0 val ≡ (v, [])
      → Evaluates vars (CfExpr.var s) v
  negated :
      (l : CfExpr) (a : ℤ)
      → Evaluates vars l a
      → IsLong (neg_ℤ a)
      → Evaluates vars (CfExpr.minus l) (neg_ℤ a)
  sum :
      (l r : CfExpr) (a b : ℤ)
      → Evaluates vars l a
      → Evaluates vars r b
      → IsLong (a +ℤ b)
      → Evaluates vars (CfExpr.op b'+' l r) (a +ℤ b)
  difference :
      (l r : CfExpr) (a b : ℤ)
      → Evaluates vars l a
      → Evaluates vars r b
      → IsLong (a -ℤ b)
      → Evaluates vars (CfExpr.op b'-' l r) (a -ℤ b)
  product :
      (l r : CfExpr) (a b : ℤ)
      → Evaluates vars l a
      → Evaluates vars r b
      → IsLong (a *ℤ b)
      → Evaluates vars (CfExpr.op b'*' l r) (a *ℤ b)
  quotient :
      (l r : CfExpr) (a b : ℤ)
      → Evaluates vars l a
      → Evaluates vars r b
      → is_zero b ≡ false
      → IsLong (quot_ℤ a b)
      → Evaluates vars (CfExpr.op b'/' l r) (quot_ℤ a b)
  remainder :
      (l r : CfExpr) (a b : ℤ)
      → Evaluates vars l a
      → Evaluates vars r b
      → is_zero b ≡ false
      → IsLong (quot_ℤ a b)
      → Evaluates vars (CfExpr.op b'%' l r) (rem_ℤ a b)

number_of_read : (s : Str) (v : ℤ) → strtol 0 s ≡ (v, []) → number_of s ≡ value v
unfolding number_of
number_of_read s v h = rw h refl

binary :
    (vars : Option Variables) (c : ℕ) (l r : CfExpr) (a b v : ℤ)
    → calc_expr vars l ≡ value a
    → calc_expr vars r ≡ value b
    → apply_op c a b ≡ value v
    → calc_expr vars (CfExpr.op c l r) ≡ value v
unfolding calc_expr and_calc
binary vars c l r a b v hl hr h = rw (hl, hr) h

apply_quotient :
    (a b : ℤ) → is_zero b ≡ false → IsLong (quot_ℤ a b) → apply_op b'/' a b ≡ value (quot_ℤ a b)
unfolding apply_op
apply_quotient a b h k = rw (h, quot-traps a b k) refl

apply_remainder :
    (a b : ℤ) → is_zero b ≡ false → IsLong (quot_ℤ a b) → apply_op b'%' a b ≡ value (rem_ℤ a b)
unfolding apply_op
apply_remainder a b h k = rw (h, quot-traps a b k) refl

in_range : (a : ℤ) → IsLong a → value (to_long a) ≡ value a
in_range a h = ap value (to_long_id a h)

variable_read :
    (vars : Option Variables) (vs : Variables) (s val : Str) (v : ℤ)
    → vars ≡ some vs
    → get_var vs s ≡ some val
    → strtol 0 val ≡ (v, [])
    → var_value vars s ≡ value v
unfolding var_value known_value
variable_read vars vs s val v h k read = rw (h, k) (number_of_read val v read)

negated_value :
    (vars : Option Variables) (l : CfExpr) (a : ℤ)
    → calc_expr vars l ≡ value a
    → IsLong (neg_ℤ a)
    → calc_expr vars (CfExpr.minus l) ≡ value (neg_ℤ a)
unfolding calc_expr and_calc
negated_value vars l a hl long = rw hl (in_range (neg_ℤ a) long)

-- Where an expression has a value in unbounded arithmetic, as Evaluates defines it, calc_expr
-- succeeds with that value.
pub calc_expr-Evaluates :
    (vars : Option Variables) (ex : CfExpr) (v : ℤ)
    → Evaluates vars ex v
    → calc_expr vars ex ≡ value v
unfolding calc_expr
calc_expr-Evaluates vars _ _ (Evaluates.number s v h) = number_of_read s v h
calc_expr-Evaluates vars _ _ (Evaluates.unset s h) = unfold var_value in rw h refl
calc_expr-Evaluates vars _ _ (Evaluates.variable s vs val v h k read) =
    variable_read vars vs s val v h k read
calc_expr-Evaluates vars _ _ (Evaluates.negated l a el long) =
    negated_value vars l a (calc_expr-Evaluates vars l a el) long
calc_expr-Evaluates vars _ _ (Evaluates.sum l r a b el er long) =
    binary vars b'+' l r a b _ (calc_expr-Evaluates vars l a el) (calc_expr-Evaluates vars r b er)
      (unfold apply_op in in_range _ long)
calc_expr-Evaluates vars _ _ (Evaluates.difference l r a b el er long) =
    binary vars b'-' l r a b _ (calc_expr-Evaluates vars l a el) (calc_expr-Evaluates vars r b er)
      (unfold apply_op in in_range _ long)
calc_expr-Evaluates vars _ _ (Evaluates.product l r a b el er long) =
    binary vars b'*' l r a b _ (calc_expr-Evaluates vars l a el) (calc_expr-Evaluates vars r b er)
      (unfold apply_op in in_range _ long)
calc_expr-Evaluates vars _ _ (Evaluates.quotient l r a b el er h long) =
    binary vars b'/' l r a b _ (calc_expr-Evaluates vars l a el) (calc_expr-Evaluates vars r b er)
      (apply_quotient a b h long)
calc_expr-Evaluates vars _ _ (Evaluates.remainder l r a b el er h long) =
    binary vars b'%' l r a b _ (calc_expr-Evaluates vars l a el) (calc_expr-Evaluates vars r b er)
      (apply_remainder a b h long)
