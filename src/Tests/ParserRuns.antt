-- ===== src/Tests/ParserRuns.antt =====
-- The parser's memory pool and values at concrete inputs.
use bmd.Prelude.{
  ◌==◌, ◌+ℤ◌, ◌+◌, ◌≤◌, ◌≡◌, refl, inl, pos, negsuc, true, false, none, some, List, [], ◌∷◌, ◌++◌,
  map, codes, str_eq, All, arith, if◌then◌else◌,
}
use bmd.Conf.{VmConf}
use bmd.Conf.Vars.{Variables, set_var0, get_var0, get_var}
use bmd.Parser.Mpool.{Mpool, mperr_none, mpool_alloc, mpool_snapshot, mpool_rollback, roundup}
use bmd.Parser.Mpool.Disjoint.{IsPool, IsGiven, AreDisjoint, mpool_alloc-AreDisjoint}
use bmd.Parser.Mpool.Rollback.{used_parts, alloc_all, mpool_rollback-mpool_snapshot}
use bmd.Parser.Numbers.{strtol, parse_int}
use bmd.Parser.Expr.{CfExpr, value, fault, calc_expr, quot_ℤ}
use bmd.Parser.Expr.Exact.{Evaluates, calc_expr-Evaluates}
use bmd.Parser.Values.{ParserEnv, parse_disk, parse_iso, parse_net}
use bmd.Parser.Values.Typed.{with_disk, with_iso, with_net, parse_devices}
use bmd.Parser.Owner.{parse_owner}
use bmd.Parser.Owner.Fixed.{KeepsOwner, parse_owner-KeepsOwner}
use bmd.Parser.Params.{set_param}
use bmd.Parser.Params.Queues.{disk_of, set_param_disks}
use bmd.Tests.Samples.{sample_conf}

-- Two blocks, the first one all but full.
abbrev pools : List Mpool
pools =
    record {
      base = 4096;
      stop = 266240;
      used = 266232;
      last_used = 4136;
      error_number = mperr_none;
    }
    ∷ record {
      base = 1000000;
      stop = 1262144;
      used = 1000040;
      last_used = 1000040;
      error_number = mperr_none;
    }
    ∷ []

pools-IsPool : IsPool pools
pools-IsPool = (
  record { start = omega arith; inside = omega arith },
  (inl (omega arith), tt),
  (record { start = omega arith; inside = omega arith }, tt, tt),
)

allocated : (mpool_alloc 20 pools).0 ≡ some 1000040
unfolding mpool_alloc
allocated = refl

mpool_alloc-AreDisjoint_example :
    (20 ≤ roundup 20)
    × AreDisjoint (4136, 64) (1000040, roundup 20)
    × IsGiven (mpool_alloc 20 pools).1 (1000040, roundup 20)
    × IsGiven (mpool_alloc 20 pools).1 (4136, 64)
    × IsPool (mpool_alloc 20 pools).1
mpool_alloc-AreDisjoint_example =
    mpool_alloc-AreDisjoint 20 pools (4136, 64) 1000040 (omega arith) pools-IsPool
      (inl (omega arith, omega arith)) allocated

mpool_rollback-mpool_snapshot_example :
    used_parts (mpool_rollback (alloc_all (20 ∷ 300000 ∷ 8 ∷ []) (mpool_snapshot pools)))
    ≡ used_parts pools
mpool_rollback-mpool_snapshot_example = mpool_rollback-mpool_snapshot (20 ∷ 300000 ∷ 8 ∷ []) pools

hexadecimal : strtol 0 (codes " -0x1fz") ≡ (negsuc 30, codes "z")
unfolding strtol
hexadecimal = refl

trailing : parse_int (codes "12k") ≡ none
unfolding parse_int
trailing = refl

parse_devices_example :
    All
      (λ t.
        parse_disk sample_conf (t ++ codes ":" ++ codes "/dev/zvol/vm1")
        ≡ some (with_disk sample_conf t (codes "/dev/zvol/vm1")))
      (codes "ahci-hd" ∷ codes "virtio-blk" ∷ codes "nvme" ∷ [])
    × All
        (λ t.
          parse_iso sample_conf (t ++ codes ":" ++ codes "/dev/zvol/vm1")
          ≡ some (with_iso sample_conf t (codes "/dev/zvol/vm1")))
        (codes "ahci-cd" ∷ [])
    × All
        (λ t.
          parse_net sample_conf (t ++ codes ":" ++ codes "/dev/zvol/vm1")
          ≡ some (with_net sample_conf t (codes "/dev/zvol/vm1")))
        (codes "virtio-net" ∷ codes "e1000" ∷ [])
    × (parse_disk sample_conf (codes "/vm")
        ≡ some (with_disk sample_conf (codes "virtio-blk") (codes "/vm")))
    × (parse_iso sample_conf (codes "/vm")
        ≡ some (with_iso sample_conf (codes "ahci-cd") (codes "/vm")))
    × (parse_net sample_conf (codes "/vm")
        ≡ some (with_net sample_conf (codes "virtio-net") (codes "/vm")))
parse_devices_example =
    parse_devices sample_conf (codes "/dev/zvol/vm1") (codes "/vm")
      (omega arith, (omega arith, (omega arith, tt)))

-- One user, who is in one group.
abbrev parser_env : ParserEnv
parser_env = record {
  getpwnam = λ name. some 1001;
  getgrnam = λ name. some 5;
  in_group = λ name gid. gid == 5;
  method_exists = λ name. true;
}

abbrev owned_conf : VmConf
owned_conf = record sample_conf {
  vars = record {
    global = none;
    local = some ((codes "OWNER", codes "alice") ∷ (codes "GROUP", codes "operator") ∷ []);
    args = none;
  };
  owner = pos 1001;
  group = pos 5;
}

accepted :
    parse_owner parser_env
      (record sample_conf { vars = record { global = none; local = some []; args = none } })
      (codes "alice:operator")
    ≡ some owned_conf
unfolding parse_owner set_var0 str_eq
accepted = refl

parse_owner-KeepsOwner_example :
    KeepsOwner parser_env
      (record sample_conf { vars = record { global = none; local = some []; args = none } })
      (codes "alice:operator")
      owned_conf
parse_owner-KeepsOwner_example =
    parse_owner-KeepsOwner parser_env
      (record sample_conf { vars = record { global = none; local = some []; args = none } })
      (codes "alice:operator") owned_conf refl accepted

set_param_disks_example :
    ((set_param parser_env sample_conf (codes "disk") false (codes "nvme:/b" ∷ [])).disks
      ≡ (if false then sample_conf.disks else []) ++ map disk_of (codes "nvme:/b" ∷ []))
    × ((set_param parser_env sample_conf (codes "disk") false (codes "nvme:/b" ∷ [])).ndisks
        ≡ 1 + 1)
set_param_disks_example = set_param_disks parser_env sample_conf false (codes "nvme:/b" ∷ [])

abbrev some_vars : Variables
some_vars = record { global = some ((codes "N", codes "10") ∷ []); local = none; args = none }

-- 2 + ${N} / 0x3
abbrev sum_expr : CfExpr
sum_expr =
    CfExpr.op b'+' (CfExpr.num (codes "2"))
      (CfExpr.op b'/' (CfExpr.var (codes "N")) (CfExpr.num (codes "0x3")))

sum-Evaluates : Evaluates (some some_vars) sum_expr (pos 5)
unfolding strtol get_var get_var0 str_eq ◌+ℤ◌ quot_ℤ
sum-Evaluates =
    Evaluates.sum _ _ (pos 2) (pos 3) (Evaluates.number (codes "2") (pos 2) refl)
      (Evaluates.quotient _ _ (pos 10) (pos 3)
        (Evaluates.variable (codes "N") some_vars (codes "10") (pos 10) refl refl refl)
        (Evaluates.number (codes "0x3") (pos 3) refl) refl (omega arith, omega arith))
      (omega arith, omega arith)

calc_expr-Evaluates_example : calc_expr (some some_vars) sum_expr ≡ value (pos 5)
calc_expr-Evaluates_example = calc_expr-Evaluates (some some_vars) sum_expr (pos 5) sum-Evaluates

-- A remainder by 0 ends the process.
remainder_by_zero :
    calc_expr none (CfExpr.op b'%' (CfExpr.num (codes "7")) (CfExpr.num (codes "0"))) ≡ fault
unfolding calc_expr
remainder_by_zero = refl
