-- ===== src/Parser/Values/Typed.antt =====
-- The types of disks, ISO images and networks in their values.
use bmd.Prelude.{
  ◌+◌, ◌≡◌, ◌≢◌, refl, ap, none, some, List, [], ◌∷◌, ◌++◌, Str, codes, All, strip_prefix, arith,
}
use bmd.Conf.{VmConf}
use bmd.Conf.Create.{add_disk_conf, add_iso_conf, add_net_conf}
use bmd.Parser.Values.{
  typed, split_type, disk_types, iso_types, net_types, parse_disk, parse_iso, parse_net,
}

-- The configuration with one more device at the end of its queue.
abbrev pub with_disk : VmConf → Str → Str → VmConf
with_disk conf type path = record conf {
  disks = conf.disks ++ record { type = type; path = path } ∷ [];
  ndisks = conf.ndisks + 1;
}

abbrev pub with_iso : VmConf → Str → Str → VmConf
with_iso conf type path = record conf {
  isoes = conf.isoes ++ record { type = type; path = path } ∷ [];
  nisoes = conf.nisoes + 1;
}

abbrev pub with_net : VmConf → Str → Str → VmConf
with_net conf type bridge = record conf {
  nets = conf.nets ++ record { type = type; bridge = bridge; tap = none } ∷ [];
  nnets = conf.nnets + 1;
}

-- A text without a colon.
abbrev pub IsUntyped : Str → Type 0
IsUntyped s = All (λ c. c ≢ b':') s

untyped : (t val : Str) → IsUntyped val → typed t val ≡ none
unfolding typed strip_prefix
untyped [] [] h = refl
untyped [] (c ∷ val) h = ground (arith, h.0)
untyped (a ∷ t) [] h = refl
untyped (a ∷ t) (c ∷ val) h = ground (arith, untyped t val h.1)

split_untyped :
    (ts : List Str) (dflt val : Str) → IsUntyped val → split_type ts dflt val ≡ (dflt, val)
unfolding split_type
split_untyped [] dflt val h = refl
split_untyped (t ∷ ts) dflt val h = rw (untyped t val h, split_type) (split_untyped ts dflt val h)

-- A disk `ahci-hd:path`, `virtio-blk:path` or `nvme:path`, an ISO image `ahci-cd:path` and a network
-- `virtio-net:bridge` or `e1000:bridge` are entered at the end of their queue with this type and this
-- path or bridge, whatever it is; a value without a colon is entered whole, with the type virtio-blk,
-- ahci-cd or virtio-net. Their count grows by one, and nothing else of the configuration changes.
pub parse_devices :
    (conf : VmConf) (rest val : Str)
    → IsUntyped val
    → All
        (λ t. parse_disk conf (t ++ codes ":" ++ rest) ≡ some (with_disk conf t rest))
        (codes "ahci-hd" ∷ codes "virtio-blk" ∷ codes "nvme" ∷ [])
      × All
          (λ t. parse_iso conf (t ++ codes ":" ++ rest) ≡ some (with_iso conf t rest))
          (codes "ahci-cd" ∷ [])
      × All
          (λ t. parse_net conf (t ++ codes ":" ++ rest) ≡ some (with_net conf t rest))
          (codes "virtio-net" ∷ codes "e1000" ∷ [])
      × (parse_disk conf val ≡ some (with_disk conf (codes "virtio-blk") val))
      × (parse_iso conf val ≡ some (with_iso conf (codes "ahci-cd") val))
      × (parse_net conf val ≡ some (with_net conf (codes "virtio-net") val))
unfolding split_type typed parse_disk parse_iso parse_net add_disk_conf add_iso_conf add_net_conf
parse_devices conf rest val h = (
  (refl, (refl, (refl, tt))),
  (refl, tt),
  (refl, (refl, tt)),
  ap (λ s. some (with_disk conf s.0 s.1)) (split_untyped disk_types (codes "virtio-blk") val h),
  ap (λ s. some (with_iso conf s.0 s.1)) (split_untyped iso_types (codes "ahci-cd") val h),
  ap (λ s. some (with_net conf s.0 s.1)) (split_untyped net_types (codes "virtio-net") val h),
)
