-- ===== src/Conf/Vars.antt =====
-- The variables of conf.c. A `struct vartree` is a red-black tree of sys/tree.h ordered by
-- `compare_variable_key`: the model keeps its pairs in a list, and `RB_FIND`, `RB_INSERT` and
-- `RB_REMOVE` are the searches by `str_eq`. Keys and values are never NULL here, and `strdup` and
-- `malloc` succeed.
pub mod Scope
use bmd.Prelude.{
  Bool, true, false, Option, none, some, List, [], ◌∷◌, Str, str_eq, if◌then◌else◌, is_some,
}

abbrev pub VarTree : Type 0
VarTree = List (Str × Str)

-- A NULL tree is `none`.
pub record Variables : Type 0 where
  pub global : Option VarTree
  pub local : Option VarTree
  pub args : Option VarTree

unfoldable pub rb_find : VarTree → Str → Option Str
rb_find [] k = none
rb_find ((j, v) ∷ t) k = let rest = rb_find t k in if str_eq j k then some v else rest

-- Gives the key a new value, or enters it.
unfoldable pub set_var0 : VarTree → Str → Str → VarTree
set_var0 [] k v = (k, v) ∷ []
set_var0 ((j, w) ∷ t) k v =
    let rest = set_var0 t k v in if str_eq j k then (j, v) ∷ t else (j, w) ∷ rest

unfoldable pub del_var : VarTree → Str → VarTree
del_var [] k = []
del_var ((j, w) ∷ t) k = let rest = del_var t k in if str_eq j k then rest else (j, w) ∷ rest

-- The innermost tree but the arguments takes the variable.
store_var : Option VarTree → Option VarTree → Variables → Str → Str → Bool × Variables
store_var (some l) g vars k v = (true, record vars { local = some (set_var0 l k v) })
store_var none (some g) vars k v = (true, record vars { global = some (set_var0 g k v) })
store_var none none vars k v = (false, vars)

drop_arg : Option VarTree → Str → Option VarTree
drop_arg none k = none
drop_arg (some t) k = some (del_var t k)

-- The result says whether the variable was stored: `false` is -1.
unfoldable pub set_var : Variables → Str → Str → Bool × Variables
unfolding store_var drop_arg
set_var vars k v =
    store_var vars.local vars.global (record vars { args = drop_arg vars.args k }) k v

unfoldable pub get_var0 : Option VarTree → Str → Option Str
unfolding rb_find
get_var0 none k = none
get_var0 (some t) k = rb_find t k

-- The first of two results that is not NULL.
abbrev pub or_else : Option Str → Option Str → Option Str
or_else (some v) d = some v
or_else none d = d

unfoldable pub get_var : Variables → Str → Option Str
get_var vars k =
    or_else (get_var0 vars.args k) (or_else (get_var0 vars.local k) (get_var0 vars.global k))
