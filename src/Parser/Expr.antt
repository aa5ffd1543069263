-- ===== src/Parser/Expr.antt =====
-- The arithmetic of the configuration file: calc_expr of parser.c.
pub mod Exact
use bmd.Prelude.{
  ℕ, suc, ◌+◌, ◌-◌, ◌*◌, ◌/◌, ◌%◌, ◌^◌, ℤ, pos, negsuc, pos_part, neg_part, ◌+ℤ◌, ◌-ℤ◌, ◌*ℤ◌, neg_ℤ,
  is_zero, Bool, true, false, ◌&&◌, ◌==◌, ltb, Option, none, some, List, [], ◌∷◌, Str,
  if◌then◌else◌,
}
use bmd.Conf.Vars.{Variables, get_var}
use bmd.Parser.Numbers.{strtol, is_end}

-- `struct cfexpr`: CF_NUM, CF_VAR, and CF_EXPR with the operator `~`, which has no right side, or
-- with another one.
pub data CfExpr : Type 0 where
  num : Str → CfExpr
  var : Str → CfExpr
  minus : CfExpr → CfExpr
  op : ℕ → CfExpr → CfExpr → CfExpr

-- 0 with a value, -1, or the signal SIGFPE, which ends the process.
pub data Calc : Type 0 where
  value : ℤ → Calc
  failed fault : Calc

-- A `long` whose operation overflows is undefined in C: the model wraps at 64 bits, as the
-- machine's instructions do.
unfoldable pub to_long : ℤ → ℤ
to_long a =
    let bits = (pos_part a % 2 ^ 64 + (2 ^ 64 - neg_part a % 2 ^ 64)) % 2 ^ 64 in
    if ltb bits (2 ^ 63) then pos bits else negsuc (2 ^ 64 - bits - 1)

-- Division towards 0, and the remainder, which has the sign of the dividend.
unfoldable pub quot_ℤ : ℤ → ℤ → ℤ
quot_ℤ (pos a) (pos b) = pos (a / b)
quot_ℤ (pos a) (negsuc b) = neg_ℤ (pos (a / suc b))
quot_ℤ (negsuc a) (pos b) = neg_ℤ (pos (suc a / b))
quot_ℤ (negsuc a) (negsuc b) = pos (suc a / suc b)

unfoldable pub rem_ℤ : ℤ → ℤ → ℤ
rem_ℤ (pos a) b = pos (a % (pos_part b + neg_part b))
rem_ℤ (negsuc a) b = neg_ℤ (pos (suc a % (pos_part b + neg_part b)))

-- LONG_MIN by -1, where the machine's division traps.
unfoldable pub traps : ℤ → ℤ → Bool
traps (negsuc a) (negsuc b) = suc a == 2 ^ 63 && b == 0
traps _ _ = false

unfoldable pub apply_op : ℕ → ℤ → ℤ → Calc
unfolding to_long ◌+ℤ◌ ◌-ℤ◌ ◌*ℤ◌ quot_ℤ rem_ℤ traps
apply_op c left right =
    if c == b'+'
    then value (to_long (left +ℤ right))
    else if c == b'-'
    then value (to_long (left -ℤ right))
    else if c == b'*'
    then value (to_long (left *ℤ right))
    else if c == b'/'
    then (if is_zero right
        then failed
        else if traps left right
        then fault
        else value (quot_ℤ left right))
    else if c == b'%'
    then (if is_zero right
        then fault
        else if traps left right
        then fault
        else value (rem_ℤ left right))
    else failed

unfoldable pub number_of : Str → Calc
unfolding strtol
number_of s = let (n, p) = strtol 0 s in if is_end p then value n else failed

known_value : Option Str → Calc
unfolding number_of
known_value none = failed
known_value (some val) = number_of val

var_value : Option Variables → Str → Calc
unfolding known_value get_var
var_value none s = value (pos 0)
var_value (some vars) s = known_value (get_var vars s)

and_calc : Calc → (ℤ → Calc) → Calc
and_calc (value n) f = f n
and_calc failed f = failed
and_calc fault f = fault

unfoldable pub calc_expr : Option Variables → CfExpr → Calc
unfolding number_of var_value and_calc to_long apply_op
calc_expr vars (num s) = number_of s
calc_expr vars (var s) = var_value vars s
calc_expr vars (minus l) = and_calc (calc_expr vars l) (λ left. value (to_long (neg_ℤ left)))
calc_expr vars (op c l r) =
    let right = calc_expr vars r in
    and_calc (calc_expr vars l) (λ left. and_calc right (apply_op c left))
