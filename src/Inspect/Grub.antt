-- ===== src/Inspect/Grub.antt =====
-- inspect_grub.c: the search for a kernel with grub-bhyve. The dialog with grub is a function from a
-- command to what stands before the next prompt.
pub mod Csi
pub mod Plain
pub mod Disks
pub mod Listed
use bmd.Prelude.{
  ℕ, ◌+◌, ◌%◌, ◌==◌, ℤ, pos, ◌+ℤ◌, to_id, Bool, true, false, not, ◌&&◌, ◌||◌, Option, none, some,
  List, [], ◌∷◌, ◌++◌, Str, codes, str_eq, strip_prefix, is_some, if◌then◌else◌,
}
use bmd.Inspect.{Inspection, netbsd_kernel, openbsd_kernel, openbsd_upgrade_kernel, boot_text}
use Disks.{DiskInfo, parse_disks}

-- strstr(3): what stands before the first place where `name` stands, and what stands behind it.
unfoldable pub strstr : Str → Str → Option (Str × Str)
unfolding strip_prefix
strstr [] name = elim (strip_prefix name []) [ none ↦ none | some r ↦ some ([], r) ]
strstr (c ∷ s) name =
    let rest : Option (Str × Str) = elim (strstr s name) [
      | none ↦ none
      | some (b, a) ↦ some (c ∷ b, a)
    ] in
    elim (strip_prefix name (c ∷ s)) [ none ↦ rest | some r ↦ some ([], r) ]

-- `p[-1] == ' '`, or the start of the buffer.
pub ends_before : Str → Bool
ends_before [] = true
ends_before (c ∷ []) = c == b' '
ends_before (c ∷ d ∷ s) = ends_before (d ∷ s)

unfoldable pub starts_after : Str → Bool
starts_after [] = true
starts_after (c ∷ s) = c == b' ' || c == 13 || c == 10

pub is_name : Option (Str × Str) → Bool
unfolding ends_before starts_after
is_name none = false
is_name (some (before, after)) = ends_before before && starts_after after

unfoldable pub look_for_filename : Str → Str → Bool
unfolding strstr is_name
look_for_filename buf name = is_name (strstr buf name)

pub data Kernel : Type 0 where
  openbsd_upgrade openbsd netbsd : Kernel

abbrev pub kernel_name : Kernel → Str
kernel_name openbsd_upgrade = openbsd_upgrade_kernel
kernel_name openbsd = openbsd_kernel
kernel_name netbsd = netbsd_kernel

abbrev pub kernel_method : Kernel → Str
kernel_method openbsd_upgrade = codes "kopenbsd"
kernel_method openbsd = codes "kopenbsd"
kernel_method netbsd = codes "knetbsd"

-- `'a' + n - 1` as `%c` writes it.
unfoldable pub letter : ℤ → ℕ
unfolding ◌+ℤ◌
letter n = to_id (pos 96 +ℤ n) % 256

pub part_index : Option (Str × ℤ) → ℤ
part_index none = pos 0
part_index (some (name, n)) = n

is_openbsd : Option (Str × ℤ) → Bool
unfolding str_eq
is_openbsd none = false
is_openbsd (some (name, n)) = str_eq name (codes "openbsd")

slice_diskname : Option (Str × ℤ) → Str
unfolding letter
slice_diskname none = codes "sd0a"
slice_diskname (some (name, n)) = codes "sd0" ++ letter n ∷ []

unfoldable pub get_diskname : Kernel → DiskInfo → Str
unfolding is_openbsd slice_diskname letter part_index
get_diskname netbsd di = codes "dk0" ++ letter (part_index di.part) ∷ []
get_diskname _ di =
    if is_openbsd di.part
    then codes "sd0" ++ letter (part_index di.part) ∷ []
    else slice_diskname di.slice

is_candidate_part : Option (Str × ℤ) → Bool
unfolding str_eq
is_candidate_part none = true
is_candidate_part (some (name, n)) = str_eq name (codes "openbsd") || str_eq name (codes "gpt")

-- A disk that the loop does not pass over.
unfoldable pub is_candidate : DiskInfo → Bool
unfolding str_eq is_candidate_part
is_candidate di = str_eq di.disk_name (codes "hd0") && is_candidate_part di.part

-- The first of the kernels that is in the listing.
unfoldable pub find_kernel : List Kernel → Str → Option Kernel
unfolding look_for_filename
find_kernel [] buf = none
find_kernel (k ∷ ks) buf =
    let rest = find_kernel ks buf in if look_for_filename buf (kernel_name k) then some k else rest

abbrev pub kernels : List Kernel
kernels = openbsd_upgrade ∷ openbsd ∷ netbsd ∷ []

unfoldable pub load_text : Bool → DiskInfo → Kernel → Str
unfolding get_diskname
load_text single di k =
    kernel_method k
    ++ ((if single then codes " -s" else [])
        ++ (codes " -h com0 -r "
            ++ (get_diskname k di
                ++ (codes " (" ++ (di.orig_name ++ (codes ")/" ++ (kernel_name k ++ boot_text)))))))

-- The loop over the disks. `none` is -1, `some none` that no kernel was found.
unfoldable pub search_disks : (Str → Option Str) → Bool → List DiskInfo → Option (Option Str)
unfolding is_candidate find_kernel load_text
search_disks ask single [] = some none
search_disks ask single (di ∷ dis) =
    let rest = search_disks ask single dis in
    if is_candidate di
    then elim (ask (codes "ls (" ++ (di.orig_name ++ codes ")/"))) [
      | none ↦ none
      | some buf ↦ elim (find_kernel kernels buf) [
        | none ↦ rest
        | some k ↦ some (some (load_text single di k))
      ]
    ]
    else rest

-- The answer of the search, and whether grub takes the command that ends it.
unfoldable pub with_command : Inspection → Option (Option Str) → Bool → Bool × Inspection
with_command ins none left = (false, ins)
with_command ins (some none) left = (left, ins)
with_command ins (some (some cmd)) left = (left, record ins { load_cmd = some cmd })

-- `spawned` says whether grub was started.
unfoldable pub inspect_with_grub : Bool → (Str → Option Str) → Inspection → Bool × Inspection
unfolding search_disks with_command parse_disks
inspect_with_grub spawned ask ins =
    if spawned
    then elim (ask (codes "ls")) [
      | none ↦ (false, ins)
      | some buf ↦
          with_command ins (search_disks ask ins.single_user (parse_disks buf))
            (is_some (ask (codes "exit")))
    ]
    else (false, ins)
