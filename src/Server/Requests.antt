-- ===== src/Server/Requests.antt =====
-- What the commands of server.c have in common: the peer, the answers of the system, and the
-- request and the response, which are name/value lists.
use bmd.Prelude.{
  to_id, ℕ, ℤ, pos, Bool, true, false, not, ◌&&◌, ◌||◌, ◌==◌, Option, none, some, List, [], ◌∷◌,
  Str, codes, str_eq, if◌then◌else◌,
}
use bmd.Conf.{VmConf}
use bmd.Conf.Nv.{NvList, NvValue, empty, pair, bool, string}
use bmd.Daemon.{VmConfEntry, Env}

-- `struct xucred`: who is at the other end of the socket.
pub record Xucred : Type 0 where
  pub uid : ℕ
  pub groups : List ℕ

-- What the system answers to one command: the answers for a start, the file descriptor of a com
-- port that can be opened and locked, the configuration that load_config_file reads, and the
-- names of getpwuid(3).
pub record CommandEnv : Type 0 where
  pub env : Env
  pub open_port : Str → Option ℕ
  pub loaded : Option (List VmConfEntry)
  pub passwd : ℕ → Option Str

-- nvlist_add: the pair comes last.
unfoldable pub add : NvList → Str → NvValue → NvList
add empty k v = pair k v empty
add (pair j w l) k v = pair j w (add l k v)

-- nvlist_get_string; where the name is missing nv(9) ends the process.
unfoldable pub get_string : NvList → Str → Option Str
unfolding str_eq
get_string empty k = none
get_string (pair j (string s) l) k =
    let rest = get_string l k in if str_eq j k then some s else rest
get_string (pair j _ l) k = get_string l k

abbrev pub mem : ℕ → List ℕ → Bool
mem x [] = false
mem x (y ∷ ys) = (y == x) || mem x ys

abbrev pub is_minus_one : ℤ → Bool
is_minus_one (pos n) = false
is_minus_one (ℤ.negsuc n) = n == 0

-- `true` is the result 0.
unfoldable pub check_owner : VmConf → Xucred → Bool
check_owner conf peer =
    peer.uid == 0
    || peer.uid == to_id conf.owner
    || (not (is_minus_one conf.group) && mem (to_id conf.group) peer.groups)

-- The end of a command: whether it failed, and why.
unfoldable pub answer : NvList → Option Str → NvList
unfolding add
answer res none = add res (codes "error") (bool false)
answer res (some reason) =
    add (add res (codes "error") (bool true)) (codes "reason") (string reason)
