-- ===== src/Inspect/Held.antt =====
-- What an inspection of inspect.c holds, the rules for it, and the functions that give back what they take.
pub mod Iso
use bmd.Prelude.{
  ℕ, ◌==◌, ==_iff, ◌≡◌, refl, ap, ◌∙◌, if_both, Option-cases, Bool, true, false, is_some, show_nat,
  strip_prefix, Bool-cases, inl, inr, ◌&&◌, not, Option, none, some, List, [], ◌∷◌, ◌++◌, Str,
  codes, arith, if◌then◌else◌,
}
use bmd.Inspect.{
  Effect, made_dir, removed_dir, mounted, unmounted, attached, detached, Inspection, InspectEnv,
  note, mddetach, unmount, mddetach_unit, attach_unit, or_else_try, and_undo, inspect_netbsd_iso,
  inspect_openbsd_iso, openbsd_iso_version, openbsd_iso_at, entry_of, join_path, iso_attached,
  iso_image, first_iso, inspect_iso_image,
}

-- What is held: the directory, the memory disk and the file system that is mounted in the directory.
pub record Held : Type 0 where
  pub dir : Bool
  pub disk : Option ℕ
  pub mount : Bool

abbrev pub nothing_held : Held
nothing_held = record { dir = false; disk = none; mount = false }

unfoldable pub is_unit : ℕ → Option ℕ → Bool
is_unit u none = false
is_unit u (some v) = u == v

unfoldable pub no_disk : Option ℕ → Bool
no_disk none = true
no_disk (some u) = false

-- The rules: a disk is detached only if it is attached and not mounted, the directory is removed
-- only if nothing is mounted in it, and nothing is taken twice. `none` breaks a rule.
unfoldable pub step : Effect → Held → Option Held
unfolding is_unit no_disk
step made_dir h = if h.dir then none else some (record h { dir = true })
step removed_dir h = if h.dir && not h.mount then some (record h { dir = false }) else none
step mounted h = if h.dir && not h.mount then some (record h { mount = true }) else none
step unmounted h = if h.mount then some (record h { mount = false }) else none
step (attached u) h = if no_disk h.disk then some (record h { disk = some u }) else none
step (detached u) h =
    if is_unit u h.disk && not h.mount then some (record h { disk = none }) else none

unfoldable pub step_from : Effect → Option Held → Option Held
unfolding step
step_from e none = none
step_from e (some h) = step e h

-- What is held after the effects, of which the last comes first.
unfoldable pub held : List Effect → Option Held
unfolding step_from
held [] = some nothing_held
held (e ∷ es) = step_from e (held es)

-- The directory, and the disk and the mount as given.
abbrev pub with_dir : Option ℕ → Bool → Held
with_dir d m = record { dir = true; disk = d; mount = m }

pub record HasHeld (d : Option ℕ) (m : Bool) (ins : Inspection) : Type 0 where
  pub effects : held ins.log ≡ some (with_dir d m)
  pub unit : ins.md_unit ≡ d

-- A function that neither takes nor gives back anything.
pub record Keeps (ins : Inspection) (r : Bool × Inspection) : Type 0 where
  pub log : r.1.log ≡ ins.log
  pub unit : r.1.md_unit ≡ ins.md_unit

pub HasHeld-Keeps :
    (d : Option ℕ) (m : Bool) (ins : Inspection) (r : Bool × Inspection)
    → HasHeld d m ins
    → Keeps ins r
    → HasHeld d m r.1
HasHeld-Keeps d m ins r h k = record { effects = ap held k.log ∙ h.effects; unit = k.unit ∙ h.unit }

pub or_else_try-Keeps :
    (ins : Inspection) (g : Inspection → Bool × Inspection) (r : Bool × Inspection)
    → ((i : Inspection) → Keeps i (g i))
    → Keeps ins r
    → Keeps ins (or_else_try g r)
unfolding or_else_try
or_else_try-Keeps ins g (true, i) k h = h
or_else_try-Keeps ins g (false, i) k h = record {
  log = (k i).log ∙ h.log;
  unit = (k i).unit ∙ h.unit;
}

pub keep : (ins : Inspection) → Keeps ins (false, ins)
keep ins = record { log = refl; unit = refl }

-- With the mount and the disk given back, the directory is left.
pub undone :
    (u : Option ℕ) (ins : Inspection)
    → HasHeld u true ins
    → held (mddetach (unmount ins)).log ≡ some (with_dir none false)
unfolding held step_from step mddetach mddetach_unit is_unit no_disk
undone none ins h = rw h.unit (ground (arith, h.effects))
undone (some u) ins h = rw h.unit (ground (arith, h.effects))

pub detached_lem :
    (u : Option ℕ) (ins : Inspection)
    → HasHeld u false ins
    → held (mddetach ins).log ≡ some (with_dir none false)
unfolding held step_from step mddetach mddetach_unit is_unit no_disk
detached_lem none ins h = rw h.unit (ground (arith, h.effects))
detached_lem (some u) ins h = rw h.unit (ground (arith, h.effects))

pub mounted-HasHeld :
    (u : Option ℕ) (ins : Inspection) → HasHeld u false ins → HasHeld u true (note mounted ins)
unfolding held step_from step
mounted-HasHeld u ins h = record { effects = ground (arith, h.effects); unit = h.unit }

pub attach-HasHeld :
    (u : ℕ) (ins : Inspection) → HasHeld none false ins → HasHeld (some u) false (attach_unit u ins)
unfolding held step_from step attach_unit no_disk
attach-HasHeld u ins h = record { effects = ground (arith, h.effects); unit = refl }

pub and_undo-held :
    (u : Option ℕ) (ins : Inspection) (r : Bool × Inspection)
    → HasHeld u true ins
    → Keeps ins r
    → held (and_undo (λ i. mddetach (unmount i)) r).1.log ≡ some (with_dir none false)
unfolding and_undo
and_undo-held u ins (rc, i) h k = undone u i (HasHeld-Keeps u true ins (rc, i) h k)
