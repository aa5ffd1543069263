-- ===== src/Server/Dispatch.antt =====
-- The table of commands of server.c, the list of machines, and the command that a request asks for.
pub mod Stranger
use bmd.Prelude.{
  to_id, ℕ, Bool, true, false, Option, none, some, List, [], ◌∷◌, Str, codes, str_eq, case_eq,
  if◌then◌else◌,
}
use bmd.Conf.{VmConf}
use bmd.Conf.Nv.{NvList, NvArray, empty, pair, bool, number, string, nvlist_array, item, end}
use bmd.Vm.{State}
use bmd.Daemon.{VmEntry, Daemon}
use bmd.Server.Commands.{
  How, boot0_command, showcomport_command, showvgaport_command, vm_down_command,
}
use bmd.Server.Requests.{Xucred, CommandEnv, add, get_string, check_owner, answer}

-- The functions of `command_list`.
pub data Cfunc : Type 0 where
  boot install list poweroff reset showcomport showvgaport shutdown : Cfunc

abbrev pub command_list : List (Str × Cfunc)
command_list =
    (codes "boot", boot)
    ∷ (codes "install", install)
    ∷ (codes "list", list)
    ∷ (codes "poweroff", poweroff)
    ∷ (codes "reset", reset)
    ∷ (codes "showcomport", showcomport)
    ∷ (codes "showvgaport", showvgaport)
    ∷ (codes "shutdown", shutdown)
    ∷ []

-- bsearch(3): the table is sorted, and no two names agree.
bsearch : Str → List (Str × Cfunc) → Option Cfunc
unfolding case_eq
bsearch name [] = none
bsearch name ((n, f) ∷ fs) = let rest = bsearch name fs in if case_eq name n then some f else rest

unfoldable pub get_command_function : Str → Option Cfunc
unfolding bsearch
get_command_function name = bsearch name command_list

-- `state_string`
state_string : State → Str
state_string State.terminate = codes "STOP"
state_string State.load = codes "LOAD"
state_string State.run = codes "RUN"
state_string State.stop = codes "TERMINATING"
state_string State.remove = codes "TERMINATING"
state_string State.restart = codes "REBOOTING"

or_text : Option Str → Str → Str
or_text none s = s
or_text (some t) s = t

-- nvlist_add_string ends the list in an error state where the string is NULL.
add_text : NvList → Str → Option Str → NvList
unfolding add
add_text p k none = p
add_text p k (some s) = add p k (string s)

list_line : CommandEnv → VmEntry → NvList
unfolding add add_text or_text state_string
list_line x e =
    let conf = e.conf.conf in
    let p1 = add_text (add empty (codes "name") (string conf.name)) (codes "ncpu") conf.ncpu in
    let p2 = add_text p1 (codes "memory") conf.memory in
    let p3 = add p2 (codes "loader") (string (or_text conf.loader conf.backend)) in
    let p4 = add p3 (codes "state") (string (state_string e.vm.state)) in
    add p4 (codes "owner") (string (or_text (x.passwd (to_id conf.owner)) (codes "nobody")))

list_lines : CommandEnv → Xucred → List VmEntry → NvArray
unfolding list_line check_owner
list_lines x peer [] = end
list_lines x peer (e ∷ es) =
    let rest = list_lines x peer es in
    if check_owner e.conf.conf peer then item (list_line x e) rest else rest

add_lines : NvArray → NvList
unfolding add
add_lines end = empty
add_lines (item p ps) = add empty (codes "vm_list") (nvlist_array (item p ps))

unfoldable pub list_command : CommandEnv → Xucred → Daemon → NvList × Daemon
unfolding list_lines add_lines answer
list_command x peer d = (answer (add_lines (list_lines x peer d.vm_list)) none, d)

pub call : Cfunc → CommandEnv → NvList → Xucred → Daemon → NvList × Daemon
unfolding boot0_command list_command vm_down_command showcomport_command showvgaport_command
call boot x nv peer d = boot0_command x false nv peer d
call install x nv peer d = boot0_command x true nv peer d
call list x nv peer d = list_command x peer d
call poweroff x nv peer d = vm_down_command x How.poweroff nv peer d
call reset x nv peer d = vm_down_command x How.reset nv peer d
call showcomport x nv peer d = showcomport_command x nv peer d
call showvgaport x nv peer d = showvgaport_command nv peer d
call shutdown x nv peer d = vm_down_command x How.acpi nv peer d

-- nvlist_take_number: the descriptor leaves the response.
pub take_fd : NvList → NvList × Option ℕ
unfolding str_eq
take_fd empty = (empty, none)
take_fd (pair k (number n) l) =
    let (rest, fd) = take_fd l in
    if str_eq k (codes "_file_descriptor_") then (l, some n) else (pair k (number n) rest, fd)
take_fd (pair k v l) = let (rest, fd) = take_fd l in (pair k v rest, fd)

pub respond : NvList × Daemon → NvList × Option ℕ × Daemon
unfolding take_fd
respond (res, d) = let (rest, fd) = take_fd res in (rest, fd, d)

pub run_function : Option Cfunc → CommandEnv → NvList → Xucred → Daemon → NvList × Option ℕ × Daemon
unfolding answer call respond
run_function none x nv peer d = (answer empty (some (codes "unknown command")), none, d)
run_function (some f) x nv peer d = respond (call f x nv peer d)

pub run_command : Option Str → CommandEnv → NvList → Xucred → Daemon → NvList × Option ℕ × Daemon
unfolding get_command_function run_function
run_command none x nv peer d = (empty, none, record d { world = record d.world { dead = true } })
run_command (some cmd) x nv peer d = run_function (get_command_function cmd) x nv peer d

-- The response and its descriptor. A request without a command ends the daemon.
unfoldable pub recv_command : CommandEnv → NvList → Xucred → Daemon → NvList × Option ℕ × Daemon
unfolding get_string run_command
recv_command x nv peer d = run_command (get_string nv (codes "command")) x nv peer d
