-- ===== src/Inspect/Held/Iso.antt =====
-- The inspection of an ISO image holds at its end what it held before.
use bmd.Prelude.{
  ℕ, ◌≡◌, if_both, Option-cases, Bool, false, inl, inr, ◌&&◌, Option, none, some, Str, arith,
}
use bmd.Inspect.{
  mounted, Inspection, InspectEnv, note, mddetach, unmount, attach_unit, or_else_try, and_undo,
  inspect_netbsd_iso, inspect_openbsd_iso, openbsd_iso_version, openbsd_iso_at, entry_of, join_path,
  iso_attached, iso_image,
}
use bmd.Inspect.Held.{
  held, with_dir, HasHeld, Keeps, or_else_try-Keeps, keep, detached_lem, mounted-HasHeld,
  attach-HasHeld, and_undo-held,
}
use bmd.Inspect.Names.{match_version_number}

netbsd_iso-Keeps : (x : InspectEnv) (ins : Inspection) → Keeps ins (inspect_netbsd_iso x ins)
unfolding inspect_netbsd_iso
netbsd_iso-Keeps x ins = record { log = ground arith; unit = ground arith }

version-Keeps :
    (x : InspectEnv) (ins : Inspection) (v : Str) → Keeps ins (openbsd_iso_version x ins v)
unfolding openbsd_iso_version openbsd_iso_at
version-Keeps x ins v =
    let dir = join_path ins.mount_point v in
    elim (Option-cases (entry_of x dir (x.is_directory dir))) [
      | inl e ↦ rw (e, openbsd_iso_version) (keep ins)
      | inr (a, e) ↦
          rw (e, openbsd_iso_version) (record { log = ground arith; unit = ground arith })
    ]

openbsd_iso-Keeps : (x : InspectEnv) (ins : Inspection) → Keeps ins (inspect_openbsd_iso x ins)
unfolding inspect_openbsd_iso openbsd_iso_version openbsd_iso_at
openbsd_iso-Keeps x ins =
    elim (Option-cases (
      entry_of x ins.mount_point
        (λ e. x.is_directory ins.mount_point e && match_version_number e))) [
          | inl e ↦ rw (e, inspect_openbsd_iso) (keep ins)
          | inr (v, e) ↦ rw (e, inspect_openbsd_iso) (version-Keeps x ins v)
        ]

iso_attached-held :
    (x : InspectEnv) (u : ℕ) (ins : Inspection)
    → HasHeld (some u) false ins
    → held (iso_attached x u ins).1.log ≡ some (with_dir none false)
unfolding iso_attached
iso_attached-held x u ins h =
    let r = or_else_try (inspect_openbsd_iso x) (inspect_netbsd_iso x (note mounted ins)) in
    if_both (λ (r : Bool × Inspection). held r.1.log ≡ some (with_dir none false)) (x.mount_iso u)
      (and_undo (λ i. mddetach (unmount i)) r) (false, mddetach ins)
      (and_undo-held (some u) (note mounted ins) r (mounted-HasHeld (some u) ins h) (
        or_else_try-Keeps (note mounted ins) (inspect_openbsd_iso x) _ (openbsd_iso-Keeps x)
          (netbsd_iso-Keeps x (note mounted ins))))
      (detached_lem (some u) ins h)

pub iso_image-held :
    (x : InspectEnv) (ins : Inspection) (path : Option Str)
    → HasHeld none false ins
    → held (iso_image x ins path).1.log ≡ some (with_dir none false)
unfolding iso_image
iso_image-held x ins none h = h.effects
iso_image-held x ins (some path) h = elim (Option-cases (x.mdattach path)) [
  | inl e ↦ rw (e, iso_image) h.effects
  | inr (u, e) ↦
      rw (e, iso_image) (iso_attached-held x u (attach_unit u ins) (attach-HasHeld u ins h))
]
