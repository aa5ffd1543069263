-- ===== src/Parser/Params/Queues.antt =====
-- What an assignment does to the disks of a virtual machine.
use bmd.Prelude.{
  ℕ, ◌+◌, ◌≡◌, refl, ap, ◌∙◌, Bool, true, false, List, [], ◌∷◌, ◌++◌, map, Str, codes, case_eq,
  length, arith, if◌then◌else◌,
}
use bmd.Conf.{DiskConf, VmConf}
use bmd.Conf.Create.{add_disk_conf, clear_disk_conf}
use bmd.Parser.Values.{ParserEnv, disk_types, split_type, parse_disk}
use bmd.Parser.Params.{
  parser_list, find_parser, keep_old, set_values, clear_with, set_with, set_param,
}

-- The disk that a value means.
abbrev pub disk_of : Str → DiskConf
disk_of val = record {
  type = (split_type disk_types (codes "virtio-blk") val).0;
  path = (split_type disk_types (codes "virtio-blk") val).1;
}

abbrev HasDisks : VmConf → List DiskConf → ℕ → Type 0
HasDisks conf disks n = (conf.disks ≡ disks) × (conf.ndisks ≡ n)

append_assoc : (xs ys zs : List DiskConf) → (xs ++ ys) ++ zs ≡ xs ++ (ys ++ zs)
append_assoc [] ys zs = refl
append_assoc (x ∷ xs) ys zs = ap (λ t. x ∷ t) (append_assoc xs ys zs)

append_nil : (xs : List DiskConf) → xs ≡ xs ++ []
append_nil [] = refl
append_nil (x ∷ xs) = ap (λ t. x ∷ t) (append_nil xs)

set_values-HasDisks :
    (vals : List Str) (conf : VmConf)
    → HasDisks
        (set_values parse_disk conf vals)
        (conf.disks ++ map disk_of vals)
        (conf.ndisks + length vals)
unfolding set_values parse_disk keep_old add_disk_conf
set_values-HasDisks [] conf = (append_nil conf.disks, omega arith)
set_values-HasDisks (v ∷ vs) conf =
    let rest = set_values-HasDisks vs (add_disk_conf conf (disk_of v).type (disk_of v).path) in
    (rest.0 ∙ append_assoc conf.disks (disk_of v ∷ []) (map disk_of vs), rest.1 ∙ omega arith)

-- After `disk = ...` the disks of a virtual machine are those of the values, in their order; after
-- `disk += ...` they come behind the disks that it had. The count of disks grows by the number of
-- values in both cases: an assignment does not reset it.
pub set_param_disks :
    (x : ParserEnv) (conf : VmConf) (append : Bool) (vals : List Str)
    → ((set_param x conf (codes "disk") append vals).disks
        ≡ (if append then conf.disks else []) ++ map disk_of vals)
      × ((set_param x conf (codes "disk") append vals).ndisks ≡ conf.ndisks + length vals)
unfolding set_param set_with clear_with parser_list find_parser case_eq clear_disk_conf
set_param_disks x conf true vals = set_values-HasDisks vals conf
set_param_disks x conf false vals = set_values-HasDisks vals (clear_disk_conf conf)
