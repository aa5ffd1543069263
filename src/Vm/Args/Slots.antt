-- ===== src/Vm/Args/Slots.antt =====
-- The slots that the devices of a machine get.
use bmd.Prelude.{
  ℕ, suc, ◌+◌, ◌≡◌, refl, ap, Bool, true, false, is_zero, List, [], ◌∷◌, ◌++◌, map, Str, codes,
  length, arith, if◌then◌else◌, Bool-cases, inl, inr,
}
use mathlib.Core.List.{append_assoc}
use bmd.Conf.{Fbuf, VmConf}
use bmd.Vm.{Vm}
use bmd.Vm.Args.{
  Args, fbuf_text, slot, disk_text, iso_text, tap_text, passthru_text, device_args, screen_args,
  mouse_args, all_devices, get_fbuf_option,
}

-- The devices in the order of the slots.
abbrev pub devices : VmConf → Vm → List Str
devices conf vm =
    map disk_text conf.disks
    ++ (map iso_text conf.isoes
        ++ (map tap_text vm.taps
            ++ (map passthru_text conf.passthrues
                ++ ((if is_zero conf.fbuf.enable then [] else fbuf_text conf.fbuf ∷ [])
                    ++ (if conf.mouse then codes "xhci,tablet" ∷ [] else [])))))

-- Each device with its own number, from `n` on.
abbrev pub numbered : ℕ → List Str → Args
numbered n [] = []
numbered n (d ∷ ds) = slot n d ++ numbered (n + 1) ds

numbered-append :
    (n : ℕ) (ds es : List Str)
    → numbered n (ds ++ es) ≡ numbered n ds ++ numbered (n + length ds) es
numbered-append n [] es = ap (λ k. numbered k es) (omega arith)
numbered-append n (d ∷ ds) es =
    let e : n + 1 + length ds ≡ n + suc (length ds) = omega arith in
    simp (numbered-append (n + 1) ds es, append_assoc, e)

length-map : {A : Type 0} (f : A → Str) (xs : List A) → length (map f xs) ≡ length xs
length-map f [] = refl
length-map f (a ∷ xs) = ap suc (length-map f xs)

device_args_lem :
    {A : Type 0} (text : A → Str) (ds : List A) (n : ℕ)
    → device_args text ds n ≡ (numbered n (map text ds), n + length (map text ds))
unfolding device_args
device_args_lem text [] n = ground arith
device_args_lem text (d ∷ ds) n =
    let e : n + 1 + length (map text ds) ≡ n + suc (length (map text ds)) = omega arith in
    rw (device_args_lem text ds (n + 1)) (rw e refl)

screen : Fbuf → List Str
screen fb = if is_zero fb.enable then [] else fbuf_text fb ∷ []

screen_args_lem :
    (fb : Fbuf) (n : ℕ) → screen_args fb n ≡ (numbered n (screen fb), n + length (screen fb))
unfolding screen_args screen slot get_fbuf_option
screen_args_lem fb n = elim (Bool-cases (is_zero fb.enable)) [
  | inl off ↦ rw off (ground arith)
  | inr on ↦ rw on refl
]

mouse_args_lem :
    (mouse : Bool) (n : ℕ)
    → mouse_args mouse n ≡ numbered n (if mouse then codes "xhci,tablet" ∷ [] else [])
unfolding mouse_args
mouse_args_lem true n = refl
mouse_args_lem false n = refl

-- The devices on bhyve's command line are those of the configuration in a fixed order, disks, ISO
-- images, taps, passthrough devices, screen and mouse, and the one at place i, from 0 on, has the
-- slot 2 + i.
pub all_devices-numbered :
    (conf : VmConf) (vm : Vm) → all_devices conf vm ≡ numbered 2 (devices conf vm)
unfolding all_devices screen
all_devices-numbered conf vm =
    simp (device_args_lem, screen_args_lem, mouse_args_lem, numbered-append)
