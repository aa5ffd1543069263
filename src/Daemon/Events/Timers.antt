-- ===== src/Daemon/Events/Timers.antt =====
-- What the operations on the event list leave of it.
use bmd.Prelude.{ℕ, ◌+◌, ◌≡◌, refl, ℤ, Bool, true, false, ◌||◌, List, [], ◌∷◌, arith, if◌then◌else◌}
use bmd.Daemon.{Event, VmEntry, World}
use bmd.Daemon.Events.{without, set_timer, wait_for_vm, wait_for_vm_output}

-- How many events satisfy a test.
abbrev pub count : (Event → Bool) → List Event → ℕ
count fn [] = 0
count fn (ev ∷ evs) = let rest = count fn evs in if fn ev then rest + 1 else rest

pub count-without : (fn : Event → Bool) (evs : List Event) → count fn (without fn evs) ≡ 0
unfolding without
count-without fn [] = refl
count-without fn (ev ∷ evs) = ground (arith, count-without fn evs)

-- Whether some event satisfies a test.
abbrev pub any : (Event → Bool) → List Event → Bool
any fn [] = false
any fn (ev ∷ evs) = fn ev || any fn evs

-- An event stays on the list unless its test is met.
pub any-without :
    (p fn : Event → Bool) (evs : List Event)
    → ((ev : Event) → p ev ≡ true → fn ev ≡ false)
    → any p evs ≡ true
    → any p (without fn evs) ≡ true
unfolding without
any-without p fn (ev ∷ evs) apart h = ground (arith, apart ev, any-without p fn evs apart)
any-without p fn [] apart h = cc

pub any-without-false :
    (p fn : Event → Bool) (evs : List Event) → any p evs ≡ false → any p (without fn evs) ≡ false
unfolding without
any-without-false p fn [] h = refl
any-without-false p fn (ev ∷ evs) h = ground (arith, any-without-false p fn evs)

-- What is registered leaves the other events.
module _ (p : Event → Bool) (taken : Bool) (e : VmEntry) where
  pub set_timer-any :
      (second : ℤ) (w : World)
      → any p w.event_list ≡ true
      → any p (set_timer taken e second w).1.event_list ≡ true
  unfolding set_timer
  set_timer-any second w h = ground arith

  pub wait_for_vm-any :
      (w : World) → any p w.event_list ≡ true → any p (wait_for_vm taken e w).1.event_list ≡ true
  unfolding wait_for_vm
  wait_for_vm-any w h = ground arith

  pub wait_for_vm_output-any :
      (w : World)
      → any p w.event_list ≡ true
      → any p (wait_for_vm_output taken e w).1.event_list ≡ true
  unfolding wait_for_vm_output
  wait_for_vm_output-any w h = ground arith
