-- ===== src/Conf/Vars/Scope.antt =====
-- What a lookup sees after a variable of conf.c is set.
use bmd.Prelude.{
  ◌≡◌, refl, true, Option, none, some, [], ◌∷◌, Str, str_eq, str_eq_iff, arith, if◌then◌else◌,
}
use bmd.Conf.Vars.{
  VarTree, Variables, rb_find, set_var0, del_var, drop_arg, set_var, get_var0, get_var,
}

pub rb_find-set_var0 :
    (t : VarTree) (k j v : Str)
    → rb_find (set_var0 t k v) j ≡ (if str_eq k j then some v else rb_find t j)
unfolding rb_find set_var0
rb_find-set_var0 [] k j v = refl
rb_find-set_var0 ((i, w) ∷ t) k j v =
    ground (arith, str_eq_iff i k, str_eq_iff i j, str_eq_iff k j, rb_find-set_var0 t k j v)

pub rb_find-del_var :
    (t : VarTree) (k j : Str) → rb_find (del_var t k) j ≡ (if str_eq k j then none else rb_find t j)
unfolding rb_find del_var
rb_find-del_var [] k j = ground arith
rb_find-del_var ((i, w) ∷ t) k j =
    ground (arith, str_eq_iff i k, str_eq_iff i j, str_eq_iff k j, rb_find-del_var t k j)

get_var0-drop :
    (args : Option VarTree) (k j : Str)
    → get_var0 (drop_arg args k) j ≡ (if str_eq k j then none else get_var0 args j)
unfolding get_var0 drop_arg
get_var0-drop none k j = ground arith
get_var0-drop (some t) k j = rb_find-del_var t k j

get_var0-set :
    (t : VarTree) (k j v : Str)
    → get_var0 (some (set_var0 t k v)) j ≡ (if str_eq k j then some v else get_var0 (some t) j)
unfolding get_var0
get_var0-set t k j v = rb_find-set_var0 t k j v

stored :
    (global local args : Option VarTree) (k j v : Str)
    → let vars : Variables = record { global = global; local = local; args = args } in
      (set_var vars k v).0 ≡ true
      → get_var (set_var vars k v).1 j ≡ (if str_eq k j then some v else get_var vars j)
unfolding get_var set_var
stored global (some l) args k j v h = ground (arith, get_var0-drop args k j, get_var0-set l k j v)
stored (some g) none args k j v h =
    ground (arith, get_var0-drop args k j, get_var0-set g k j v, no_tree j)
  where
    no_tree : (i : Str) → get_var0 none i ≡ none
    no_tree i = unfold get_var0 in refl
stored none none args k j v h = cc

-- Whatever arguments and variables are in scope, once set_var has stored a value, get_var of that
-- name gives the value; every other name is seen as before.
pub get_var-set_var :
    (vars : Variables) (k j v : Str)
    → (set_var vars k v).0 ≡ true
    → get_var (set_var vars k v).1 j ≡ (if str_eq k j then some v else get_var vars j)
get_var-set_var vars k j v h = stored vars.global vars.local vars.args k j v h
