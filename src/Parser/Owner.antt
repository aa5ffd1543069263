-- ===== src/Parser/Owner.antt =====
-- The owner and the group of a virtual machine in parser.c.
pub mod Fixed
use bmd.Prelude.{
  ℕ, ℤ, pos, to_id, Bool, true, false, not, ◌&&◌, ◌||◌, ◌==◌, Option, none, some, Str, codes,
  split_at, if◌then◌else◌,
}
use bmd.Conf.{VmConf}
use bmd.Conf.Vars.{set_var}
use bmd.Conf.Setters.{set_owner, set_group}
use bmd.Parser.Values.{ParserEnv}

-- `user` and `group`, before and behind the first colon.
pub split_owner : Str → Option (Str × Str) → Str × Option Str
split_owner val none = (val, none)
split_owner val (some (user, group)) = (user, some group)

-- `get_owner(conf) != 0`: a user's file gave the machine its owner.
abbrev pub has_owner : VmConf → Bool
has_owner conf = not (to_id conf.owner == 0)

pub own_user : VmConf → Str → ℕ → VmConf
unfolding set_owner set_var
own_user conf user uid =
    let owned = set_owner conf (pos uid) in
    record owned { vars = (set_var owned.vars (codes "OWNER") user).1 }

pub own_group : VmConf → Str → ℕ → VmConf
unfolding set_group set_var
own_group conf group gid =
    let grouped = set_group conf (pos gid) in
    record grouped { vars = (set_var grouped.vars (codes "GROUP") group).1 }

pub with_group : ParserEnv → VmConf → Str → ℕ → Str → Option ℕ → Option VmConf
unfolding own_user own_group
with_group x conf user uid group none = none
with_group x conf user uid group (some gid) =
    if has_owner conf && not (x.in_group user gid)
    then none
    else some (own_group (own_user conf user uid) group gid)

pub with_user : ParserEnv → VmConf → Str → Option Str → Option ℕ → Option VmConf
unfolding with_group own_user
with_user x conf user group none = none
with_user x conf user none (some uid) =
    if has_owner conf && not (to_id conf.owner == uid) then none else some (own_user conf user uid)
with_user x conf user (some group) (some uid) =
    if has_owner conf && not (to_id conf.owner == uid)
    then none
    else with_group x conf user uid group (x.getgrnam group)

unfoldable pub parse_owner : ParserEnv → VmConf → Str → Option VmConf
unfolding split_at split_owner with_user
parse_owner x conf val =
    let (user, group) = split_owner val (split_at b':' val) in
    with_user x conf user group (x.getpwnam user)
