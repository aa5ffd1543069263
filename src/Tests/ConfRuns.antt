-- ===== src/Tests/ConfRuns.antt =====
-- The operations on configurations, and a start of the bhyve backend, at concrete inputs.
use bmd.Prelude.{
  ℕ, ◌≡◌, refl, ◌↔◌, true, some, [], ◌∷◌, Str, codes, pos, strcmp, str_eq, str_eq_iff, case_eq,
  if◌then◌else◌, arith,
}
use bmd.Conf.{VmConf}
use bmd.Conf.Vars.{Variables, set_var, get_var}
use bmd.Conf.Vars.Scope.{get_var-set_var}
use bmd.Conf.Create.Ids.{IdList, IsUnique, lookup_id, get_id, get_id-IsUnique, lookup-get_id}
use bmd.Conf.Compare.{compare_vm_conf}
use bmd.Conf.Compare.Same.{InRange, SameConf, compare_vm_conf-SameConf}
use bmd.Conf.Nv.{NvList, empty, pair, number, string_array, nvlist, compare_nvlist}
use bmd.Conf.Nv.Agree.{Agree, compare_nvlist-Agree}
use bmd.Vm.{State, ok}
use bmd.Vm.Bhyve.{start_bhyve, start_loader, choose_start, ◌then_start◌, bhyve_load}
use bmd.Vm.Bhyve.Started.{started_state, start_bhyve_started}
use bmd.Tests.Samples.{sample_conf, sample_vm, sample_spawn}

abbrev other_conf : VmConf
other_conf = record sample_conf { ncpu = some (codes "4"); stop_timeout = pos 60 }

sample-InRange : InRange sample_conf
sample-InRange = record {
  boot_delay = (omega arith, omega arith);
  loader_timeout = (omega arith, omega arith);
  stop_timeout = (omega arith, omega arith);
  owner = (omega arith, omega arith);
  group = (omega arith, omega arith);
  ndisks = omega arith;
  nisoes = omega arith;
  nnets = omega arith;
  fbuf = record {
    enable = (omega arith, omega arith);
    port = (omega arith, omega arith);
    width = (omega arith, omega arith);
    height = (omega arith, omega arith);
  };
}

other-InRange : InRange other_conf
other-InRange = record {
  boot_delay = sample-InRange.boot_delay;
  loader_timeout = sample-InRange.loader_timeout;
  stop_timeout = (omega arith, omega arith);
  owner = sample-InRange.owner;
  group = sample-InRange.group;
  ndisks = omega arith;
  nisoes = omega arith;
  nnets = omega arith;
  fbuf = sample-InRange.fbuf;
}

abbrev two_ids : IdList
two_ids = record { entries = (codes "b", 1) ∷ (codes "a", 0) ∷ []; lastid = 2 }

two_ids-IsUnique : IsUnique two_ids
unfolding lookup_id
two_ids-IsUnique = record {
  below = λ name id h. ground arith;
  distinct = λ n m id h k. ground (
    arith,
    str_eq_iff (codes "b") n,
    str_eq_iff (codes "a") n,
    str_eq_iff (codes "b") m,
    str_eq_iff (codes "a") m,
  );
}

get_id-IsUnique_example :
    IsUnique (get_id two_ids (codes "c")).1
    × ((n : Str) (id : ℕ)
        → lookup_id two_ids.entries n ≡ some id
        → lookup_id (get_id two_ids (codes "c")).1.entries n ≡ some id)
get_id-IsUnique_example = get_id-IsUnique two_ids (codes "c") (omega arith) two_ids-IsUnique

abbrev some_vars : Variables
some_vars = record {
  global = some ((codes "DIR", codes "/vm") ∷ []);
  local = some ((codes "NAME", codes "vm1") ∷ []);
  args = some ((codes "DIR", codes "/tmp") ∷ []);
}

get_var-set_var_example :
    get_var (set_var some_vars (codes "DIR") (codes "/usr/vm")).1 (codes "DIR") ≡ (
      if str_eq (codes "DIR") (codes "DIR")
      then some (codes "/usr/vm")
      else get_var some_vars (codes "DIR"))
get_var-set_var_example =
    get_var-set_var some_vars (codes "DIR") (codes "DIR") (codes "/usr/vm") stored
  where
    stored : (set_var some_vars (codes "DIR") (codes "/usr/vm")).0 ≡ true
    stored = unfold set_var in refl

started : (start_bhyve (codes "/var/cache/bmd") sample_spawn sample_conf sample_vm).0 ≡ ok
unfolding start_bhyve start_loader choose_start ◌then_start◌ bhyve_load case_eq
started = refl

start_bhyve_started_example :
    ((start_bhyve (codes "/var/cache/bmd") sample_spawn sample_conf sample_vm).1.state
      ≡ started_state State.terminate (codes "bhyveload"))
    × ((start_bhyve (codes "/var/cache/bmd") sample_spawn sample_conf sample_vm).1.pid ≡ some 4711)
start_bhyve_started_example =
    start_bhyve_started (codes "/var/cache/bmd") (codes "bhyveload") sample_spawn sample_conf
      sample_vm refl started

compare_vm_conf-SameConf_example :
    (compare_vm_conf sample_conf other_conf ≡ pos 0) ↔ SameConf sample_conf other_conf
compare_vm_conf-SameConf_example =
    compare_vm_conf-SameConf sample_conf other_conf sample-InRange other-InRange

lookup-get_id_example :
    lookup_id (get_id two_ids (codes "a")).1.entries (codes "a")
    ≡ some (get_id two_ids (codes "a")).0
lookup-get_id_example = lookup-get_id two_ids (codes "a")

abbrev plugin_options : NvList
plugin_options =
    pair (codes "port") (number 22) (pair (codes "hosts") (string_array (codes "a" ∷ [])) empty)

abbrev reordered_options : NvList
reordered_options =
    pair (codes "hosts") (string_array (codes "a" ∷ [])) (pair (codes "port") (number 22) empty)

compare_nvlist-Agree_example :
    (compare_nvlist plugin_options reordered_options ≡ pos 0)
    ↔ Agree (nvlist plugin_options) (nvlist reordered_options)
compare_nvlist-Agree_example = compare_nvlist-Agree plugin_options reordered_options

reordered_agree : compare_nvlist plugin_options reordered_options ≡ pos 0
unfolding compare_nvlist strcmp
reordered_agree = refl
