-- ===== src/Parser/Owner/Fixed.antt =====
-- A machine that has an owner keeps it.
use bmd.Prelude.{
  split_at, [], ◌++◌, ◌∷◌, ℕ, sym, ◌≡◌, ◌⊎◌, refl, ap, ◌∙◌, Bool-cases, inl, inr, ℤ, pos, to_id,
  Bool, true, false, not, ◌&&◌, ◌==◌, Option, none, some, Str, arith, if◌then◌else◌,
}
use mathlib.Core.Path.{subst}
use bmd.Conf.{VmConf}
use bmd.Parser.Values.{ParserEnv}
use bmd.Parser.Owner.{
  split_owner, has_owner, own_user, own_group, with_group, with_user, parse_owner,
}

-- `user` is known to the system as the owner of the configuration, `group` is a group that
-- is_in_group finds this user in, and it is the new group.
abbrev pub HasGroup : ParserEnv → VmConf → Str → Str → VmConf → Type 0
HasGroup x conf user group new =
    (uid : ℕ) × (gid : ℕ) × (x.getpwnam user ≡ some uid)
    × (to_id conf.owner ≡ to_id (pos uid))
    × (x.getgrnam group ≡ some gid)
    × (new.group ≡ pos gid)
    × (x.in_group user gid ≡ true)

-- The owner is that of before, and the group is that of before or one that the value names behind
-- the owner's name and a colon.
abbrev pub KeepsOwner : ParserEnv → VmConf → Str → VmConf → Type 0
KeepsOwner x conf val new =
    (to_id new.owner ≡ to_id conf.owner)
    × ((new.group ≡ conf.group)
        ⊎ ((user : Str) × (group : Str) × (val ≡ user ++ b':' ∷ group)
            × HasGroup x conf user group new))

-- The same of the two parts of the value.
abbrev KeepsParts : ParserEnv → VmConf → Str → Option Str → VmConf → Type 0
KeepsParts x conf user none new = (to_id new.owner ≡ to_id conf.owner) × (new.group ≡ conf.group)
KeepsParts x conf user (some group) new =
    (to_id new.owner ≡ to_id conf.owner) × HasGroup x conf user group new

own_user_fields :
    (conf : VmConf) (user : Str) (uid : ℕ)
    → ((own_user conf user uid).owner ≡ pos uid) × ((own_user conf user uid).group ≡ conf.group)
unfolding own_user
own_user_fields conf user uid = (refl, refl)

own_group_fields :
    (conf : VmConf) (group : Str) (gid : ℕ)
    → ((own_group conf group gid).owner ≡ conf.owner) × ((own_group conf group gid).group ≡ pos gid)
unfolding own_group
own_group_fields conf group gid = (refl, refl)

-- A user id is one when it is read back.
same_id : (a : ℤ) (uid : ℕ) → (to_id a == uid) ≡ true → to_id (pos uid) ≡ to_id a
same_id a uid h = ground arith

kept_user :
    (x : ParserEnv) (conf : VmConf) (user : Str) (uid : ℕ)
    → (to_id conf.owner == uid) ≡ true
    → KeepsParts x conf user none (own_user conf user uid)
kept_user x conf user uid same =
    let f = own_user_fields conf user uid in (ap to_id f.0 ∙ same_id conf.owner uid same, f.1)

kept_group :
    (x : ParserEnv) (conf : VmConf) (user group : Str) (uid gid : ℕ)
    → (to_id conf.owner == uid) ≡ true
    → x.getpwnam user ≡ some uid
    → x.getgrnam group ≡ some gid
    → x.in_group user gid ≡ true
    → KeepsParts x conf user (some group) (own_group (own_user conf user uid) group gid)
kept_group x conf user group uid gid same known found member =
    let f = own_user_fields conf user uid in
    let g = own_group_fields (own_user conf user uid) group gid in
    let id = same_id conf.owner uid same in
    (ap to_id (g.0 ∙ f.0) ∙ id, (uid, gid, known, sym id, found, g.1, member))

member_of : (a b : Bool) → a ≡ true → (a && not b) ≡ false → b ≡ true
member_of a b h k = ground (arith, h, k)

-- What is returned is what was tested.
returned :
    (P : VmConf → Type 0) (test : Bool) (conf new : VmConf)
    → (test ≡ false → P conf)
    → (if test then none else some conf) ≡ some new
    → P new
returned P true conf new h e = cc
returned P false conf new h e = let same : conf ≡ new = cc e in subst P same (h refl)

with_group-KeepsParts :
    (x : ParserEnv) (conf : VmConf) (user : Str) (uid : ℕ) (group : Str) (found : Option ℕ)
    (new : VmConf)
    → has_owner conf ≡ true
    → (to_id conf.owner == uid) ≡ true
    → x.getpwnam user ≡ some uid
    → x.getgrnam group ≡ found
    → with_group x conf user uid group found ≡ some new
    → KeepsParts x conf user (some group) new
unfolding with_group
with_group-KeepsParts x conf user uid group none new owned same known e h = cc h
with_group-KeepsParts x conf user uid group (some gid) new owned same known e h =
    returned (KeepsParts x conf user (some group)) (has_owner conf && not (x.in_group user gid)) _
      new (λ t. kept_group x conf user group uid gid same known e (member_of _ _ owned t)) h

with_user-KeepsParts :
    (x : ParserEnv) (conf : VmConf) (user : Str) (group : Option Str) (found : Option ℕ)
    (new : VmConf)
    → has_owner conf ≡ true
    → x.getpwnam user ≡ found
    → with_user x conf user group found ≡ some new
    → KeepsParts x conf user group new
unfolding with_user
with_user-KeepsParts x conf user none none new owned known h = cc h
with_user-KeepsParts x conf user (some group) none new owned known h = cc h
with_user-KeepsParts x conf user none (some uid) new owned known h =
    returned (KeepsParts x conf user none) (has_owner conf && not (to_id conf.owner == uid)) _ new
      (λ t. kept_user x conf user uid (member_of _ _ owned t)) h
with_user-KeepsParts x conf user (some group) (some uid) new owned known h =
    elim (Bool-cases (to_id conf.owner == uid)) [
      | inl same ↦
          with_group-KeepsParts x conf user uid group (x.getgrnam group) new owned same known refl
            (cc (owned, same, h))
      | inr other ↦ cc (owned, other, h)
    ]

-- What stands before and behind the first `c`, with the same of the rest.
split_step :
    (c a : ℕ) (s user group : Str) (rest : Option (Str × Str))
    → ((x y : Str) → rest ≡ some (x, y) → s ≡ x ++ c ∷ y)
    → (let further : Option (Str × Str) = elim rest [
      | none ↦ none
      | some (x, y) ↦ some (a ∷ x, y)
    ] in
        if a == c then some ([], s) else further)
      ≡ some (user, group)
    → a ∷ s ≡ user ++ c ∷ group
split_step c a s user group none next h = ground (arith, h)
split_step c a s user group (some (x, y)) next h = ground (arith, next x y refl, h)

split_at-append :
    (c : ℕ) (s user group : Str) → split_at c s ≡ some (user, group) → s ≡ user ++ c ∷ group
unfolding split_at
split_at-append c [] user group h = cc h
split_at-append c (a ∷ s) user group h =
    split_step c a s user group (split_at c s) (split_at-append c s) h

parts-KeepsOwner :
    (x : ParserEnv) (conf : VmConf) (val : Str) (parts : Option (Str × Str)) (new : VmConf)
    → split_at b':' val ≡ parts
    → KeepsParts x conf (split_owner val parts).0 (split_owner val parts).1 new
    → KeepsOwner x conf val new
unfolding split_owner
parts-KeepsOwner x conf val none new e (owner, group) = (owner, inl group)
parts-KeepsOwner x conf val (some (user, group)) new e (owner, kept) =
    (owner, inr (user, group, split_at-append b':' val user group e, kept))

-- Once a machine has an owner other than root, an `owner` parameter that is accepted leaves the owner
-- as it is, and leaves the group, or the value is `user:group` with the name of this owner, and
-- the new group is this group, in which is_in_group finds this user.
pub parse_owner-KeepsOwner :
    (x : ParserEnv) (conf : VmConf) (val : Str) (new : VmConf)
    → has_owner conf ≡ true
    → parse_owner x conf val ≡ some new
    → KeepsOwner x conf val new
unfolding parse_owner
parse_owner-KeepsOwner x conf val new owned h =
    parts-KeepsOwner x conf val (split_at b':' val) new refl
      (with_user-KeepsParts x conf _ _ _ new owned refl h)
