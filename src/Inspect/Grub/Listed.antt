-- ===== src/Inspect/Grub/Listed.antt =====
-- Names that look_for_filename does not find in a listing.
use bmd.Prelude.{ℕ, ◌≡◌, refl, ap, ◌∙◌, false, some, [], ◌∷◌, ◌++◌, Str, strip_prefix, arith}
use bmd.Inspect.Grub.{strstr, starts_after, is_name, look_for_filename}

prefix_self : (name s : Str) → strip_prefix name (name ++ s) ≡ some s
unfolding strip_prefix
prefix_self [] s = refl
prefix_self (c ∷ name) s = ground (arith, prefix_self name s)

strstr_first : (name s : Str) → strstr (name ++ s) name ≡ some ([], s)
unfolding strstr
strstr_first [] [] = unfold strip_prefix in refl
strstr_first [] (c ∷ s) = unfold strip_prefix in refl
strstr_first (c ∷ name) s = rw (prefix_self (c ∷ name) s, strstr) refl

-- If a listing begins with a longer name that begins with the name sought, the name is not found,
-- wherever it stands in the rest of the listing: only its first place is looked at.
pub look_for_filename-longer_first :
    (name : Str) (c : ℕ) (rest : Str)
    → starts_after (c ∷ rest) ≡ false
    → look_for_filename (name ++ c ∷ rest) name ≡ false
unfolding look_for_filename is_name
look_for_filename-longer_first name c rest h = ap is_name (strstr_first name (c ∷ rest)) ∙ h
