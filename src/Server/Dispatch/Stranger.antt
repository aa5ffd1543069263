-- ===== src/Server/Dispatch/Stranger.antt =====
-- What a peer learns of a machine that he may not use.
use bmd.Prelude.{◌≡◌, refl, Bool, true, false, none, some, Str, codes, str_eq}
use bmd.Conf.Nv.{NvList}
use bmd.Daemon.{VmEntry, Daemon}
use bmd.Daemon.Entries.{lookup_vm_by_name}
use bmd.Server.Commands.Allowed.{not_found, with_vm_stranger}
use bmd.Server.Commands.{boot0_command, showcomport_command, showvgaport_command, vm_down_command}
use bmd.Server.Requests.{Xucred, CommandEnv, add, get_string, check_owner, answer}
use bmd.Server.Dispatch.{
  Cfunc, get_command_function, call, take_fd, respond, run_function, run_command, recv_command,
}

abbrev pub is_list : Cfunc → Bool
is_list Cfunc.list = true
is_list _ = false

call_stranger :
    (func : Cfunc) (x : CommandEnv) (nv : NvList) (peer : Xucred) (d : Daemon) (name : Str)
    (e : VmEntry)
    → is_list func ≡ false
    → get_string nv (codes "name") ≡ some name
    → lookup_vm_by_name d.vm_list name ≡ some e
    → check_owner e.conf.conf peer ≡ false
    → call func x nv peer d ≡ (not_found, d)
unfolding call boot0_command showcomport_command showvgaport_command vm_down_command
call_stranger Cfunc.list x nv peer d name e one asked found denied = cc
call_stranger Cfunc.boot x nv peer d name e one asked found denied =
    with_vm_stranger peer nv _ d name e asked found denied
call_stranger Cfunc.install x nv peer d name e one asked found denied =
    with_vm_stranger peer nv _ d name e asked found denied
call_stranger Cfunc.poweroff x nv peer d name e one asked found denied =
    with_vm_stranger peer nv _ d name e asked found denied
call_stranger Cfunc.reset x nv peer d name e one asked found denied =
    with_vm_stranger peer nv _ d name e asked found denied
call_stranger Cfunc.showcomport x nv peer d name e one asked found denied =
    with_vm_stranger peer nv _ d name e asked found denied
call_stranger Cfunc.showvgaport x nv peer d name e one asked found denied =
    with_vm_stranger peer nv _ d name e asked found denied
call_stranger Cfunc.shutdown x nv peer d name e one asked found denied =
    with_vm_stranger peer nv _ d name e asked found denied

not_found_kept : (d : Daemon) → respond (not_found, d) ≡ (not_found, none, d)
unfolding respond answer add take_fd str_eq
not_found_kept d = refl

-- Whatever command but `list` a request asks for, a peer who is neither root nor the owner of the
-- machine nor in its group changes nothing, and the response is the one for a name that no machine
-- has, with no descriptor: he cannot tell such a machine from none.
pub recv_command_stranger :
    (x : CommandEnv) (nv : NvList) (peer : Xucred) (d : Daemon) (cmd : Str) (func : Cfunc)
    (name : Str) (e : VmEntry)
    → get_string nv (codes "command") ≡ some cmd
    → get_command_function cmd ≡ some func
    → is_list func ≡ false
    → get_string nv (codes "name") ≡ some name
    → lookup_vm_by_name d.vm_list name ≡ some e
    → check_owner e.conf.conf peer ≡ false
    → recv_command x nv peer d ≡ (not_found, none, d)
unfolding recv_command run_command run_function
recv_command_stranger x nv peer d cmd func name e command known one asked found denied =
    rw (command, known, call_stranger func x nv peer d name e one asked found denied)
      (not_found_kept d)
