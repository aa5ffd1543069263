-- ===== src/Tests/ServerRuns.antt =====
-- The command server on concrete requests and streams.
use bmd.Prelude.{
  ℕ, ◌≡◌, refl, true, false, none, some, List, [], ◌∷◌, ◌++◌, codes, case_eq, arith, ◌+◌, ◌≤◌, ◌<◌,
  All, length,
}
use bmd.Conf.Nv.{NvList, empty, pair, string}
use bmd.Vm.{State}
use bmd.Daemon.Entries.{lookup_vm_by_name}
use bmd.Daemon.Loop.{find_vm}
use bmd.Server.Commands.{How, vm_down_command}
use bmd.Server.Requests.{Xucred, CommandEnv, get_string, check_owner, answer}
use bmd.Server.Commands.Allowed.{not_found}
use bmd.Server.Commands.Down.{IsInState, down_state, vm_down_command-IsInState}
use bmd.Server.Dispatch.{Cfunc, get_command_function, recv_command}
use bmd.Server.Dispatch.Stranger.{recv_command_stranger}
use bmd.Server.SockBuf.{SockBuf, data_of, clear_sock_buf, frame, htonl, receive_all, send_all}
use bmd.Server.SockBuf.Whole.{IsWhole, receive_all-IsWhole}
use bmd.Server.SockBuf.Sent.{IsSent, send_all-IsSent}
use bmd.Server.Idle.{IdleSock, calc_timeout, close_timeout_sock_buf}
use bmd.Server.Idle.Next.{calc_timeout-close_timeout_sock_buf}
use bmd.Server.Sockets.{Client, Packing, new_client, on_recv_sock_buf}
use bmd.Server.Sockets.Turns.{HasTurn, here, next, read, Reach-HasTurn}
use bmd.Tests.Samples.{sample_env, entry_in, daemon_in}

abbrev command_env : CommandEnv
command_env = record {
  env = sample_env;
  open_port = λ fn. some 10;
  loaded = none;
  passwd = λ uid. none;
}

abbrev request : NvList
request =
    pair (codes "command") (string (codes "Shutdown"))
      (pair (codes "name") (string (codes "vm1")) empty)

-- The owner of the sample, and another user.
abbrev owner : Xucred
owner = record { uid = 1001; groups = 1001 ∷ [] }

abbrev other : Xucred
other = record { uid = 1002; groups = 1002 ∷ 0 ∷ [] }

request_name : get_string request (codes "name") ≡ some (codes "vm1")
unfolding get_string
request_name = refl

request_command : get_string request (codes "command") ≡ some (codes "Shutdown")
unfolding get_string
request_command = refl

shutdown_known : get_command_function (codes "Shutdown") ≡ some Cfunc.shutdown
unfolding get_command_function case_eq
shutdown_known = refl

vm1_found :
    lookup_vm_by_name (daemon_in State.run).vm_list (codes "vm1") ≡ some (entry_in State.run)
unfolding lookup_vm_by_name
vm1_found = refl

vm1_placed : find_vm (daemon_in State.run).vm_list (some 1) ≡ some (entry_in State.run)
unfolding find_vm
vm1_placed = refl

owner_allowed : check_owner (entry_in State.run).conf.conf owner ≡ true
unfolding check_owner
owner_allowed = refl

other_denied : check_owner (entry_in State.run).conf.conf other ≡ false
unfolding check_owner
other_denied = refl

vm_down_command-IsInState_example :
    ((vm_down_command command_env How.acpi request owner (daemon_in State.run)).0
      ≡ answer empty none)
    × IsInState
        (vm_down_command command_env How.acpi request owner (daemon_in State.run)).1
        (codes "vm1")
        (down_state How.acpi State.run)
vm_down_command-IsInState_example =
    vm_down_command-IsInState command_env How.acpi request owner (daemon_in State.run) (codes "vm1")
      (entry_in State.run) request_name vm1_found vm1_placed owner_allowed

recv_command_stranger_example :
    recv_command command_env request other (daemon_in State.run)
    ≡ (not_found, none, daemon_in State.run)
recv_command_stranger_example =
    recv_command_stranger command_env request other (daemon_in State.run) (codes "Shutdown")
      Cfunc.shutdown (codes "vm1") (entry_in State.run) request_command shutdown_known refl
      request_name vm1_found other_denied

abbrev some_buf : SockBuf
some_buf = record {
  read_state = true;
  size = [];
  buf_size = 0;
  buf = [];
  res_fd = none;
  res_buf = codes "ok!";
  res_bytes = 0;
  sent_size = 0;
}

-- The sizes of the pieces, less one.
abbrev pieces : List ℕ
pieces = 1 ∷ 0 ∷ 2 ∷ 0 ∷ 0 ∷ 1 ∷ 0 ∷ 3 ∷ []

receive_all-IsWhole_example :
    IsWhole
      (codes "boot")
      (codes "xy")
      (receive_all pieces (clear_sock_buf some_buf) (frame (codes "boot") ++ codes "xy"))
receive_all-IsWhole_example =
    receive_all-IsWhole pieces some_buf (codes "boot") (codes "xy") (omega arith) (omega arith)
      (omega arith)

send_all-IsSent_example : IsSent [] (codes "ok!") (send_all pieces some_buf)
send_all-IsSent_example = send_all-IsSent pieces some_buf refl refl (omega arith) (omega arith)

-- A first call that sends just the size ends the response.
size_only : (send_all (3 ∷ 9 ∷ []) some_buf).1 ≡ htonl 3
unfolding send_all htonl
size_only = refl

abbrev idle_socks : List IdleSock
idle_socks = record { fd = 7; event_time = 100 } ∷ record { fd = 8; event_time = 90 } ∷ []

calc_timeout-close_timeout_sock_buf_example :
    (20 ≤ 30)
    × All (λ p. 100 + 20 ≤ p.event_time + 30) idle_socks
    × (length (close_timeout_sock_buf (100 + 20) 30 idle_socks) < length idle_socks)
unfolding calc_timeout
calc_timeout-close_timeout_sock_buf_example =
    calc_timeout-close_timeout_sock_buf 100 30 20 idle_socks (omega arith, (omega arith, tt)) refl

-- Once a socket is overdue the wait has no limit.
overdue : calc_timeout 121 30 idle_socks ≡ none
unfolding calc_timeout
overdue = refl

-- Every message is the request of this module, and every response has one byte.
abbrev one_byte : Packing
one_byte = record { pack = λ res. some (7 ∷ []); unpack = λ bytes. some request }

abbrev root_client : Client
root_client = new_client (record { uid = 0; groups = [] })

abbrev sized_client : Client
sized_client = record root_client {
  buf = record root_client.buf { read_state = true; size = 0 ∷ 0 ∷ 0 ∷ 1 ∷ []; buf_size = 1 };
}

abbrev sending_client : Client
sending_client = record root_client {
  buf = record root_client.buf { res_buf = 7 ∷ [] };
  recv_on = false;
  send_on = true;
}

Reach-HasTurn_example : HasTurn sending_client
unfolding on_recv_sock_buf recv_command
Reach-HasTurn_example =
    Reach-HasTurn (record { uid = 0; groups = [] }) sending_client
      (next
        (next here (
          read one_byte command_env (data_of (0 ∷ 0 ∷ 0 ∷ 1 ∷ [])) (daemon_in State.run) root_client
            sized_client refl refl))
        (read one_byte command_env (data_of (9 ∷ [])) (daemon_in State.run) sized_client
          sending_client refl refl))
