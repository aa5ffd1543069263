-- ===== src/Server/Commands/Allowed.antt =====
-- The two ends of the test that all commands on one machine start with.
use bmd.Prelude.{◌≡◌, refl, true, false, some, Str, codes}
use bmd.Conf.Nv.{NvList, empty}
use bmd.Daemon.{VmEntry, Daemon}
use bmd.Daemon.Entries.{lookup_vm_by_name}
use bmd.Server.Commands.{with_vm, named_vm, allowed_vm}
use bmd.Server.Requests.{Xucred, get_string, check_owner, answer}

pub with_vm_allowed :
    (peer : Xucred) (nv : NvList) (f : VmEntry → NvList × Daemon) (d : Daemon) (name : Str)
    (e : VmEntry)
    → get_string nv (codes "name") ≡ some name
    → lookup_vm_by_name d.vm_list name ≡ some e
    → check_owner e.conf.conf peer ≡ true
    → with_vm peer nv f d ≡ f e
unfolding with_vm named_vm allowed_vm
with_vm_allowed peer nv f d name e asked found allowed = rw (asked, found, allowed) refl

-- The answer to a request that names no machine of the list.
abbrev pub not_found : NvList
not_found = answer empty (some (codes "VM not found"))

pub with_vm_stranger :
    (peer : Xucred) (nv : NvList) (f : VmEntry → NvList × Daemon) (d : Daemon) (name : Str)
    (e : VmEntry)
    → get_string nv (codes "name") ≡ some name
    → lookup_vm_by_name d.vm_list name ≡ some e
    → check_owner e.conf.conf peer ≡ false
    → with_vm peer nv f d ≡ (not_found, d)
unfolding with_vm named_vm allowed_vm
with_vm_stranger peer nv f d name e asked found denied = rw (asked, found, denied) refl
