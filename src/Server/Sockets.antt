-- ===== src/Server/Sockets.antt =====
-- The callbacks of bmd.c for a connection: on_recv_sock_buf and on_send_sock_buf, with the events that
-- they switch. The packing of nv(9) is a parameter.
pub mod Turns
use bmd.Prelude.{Bool, true, false, Option, none, some, [], Str, codes, if◌then◌else◌}
use bmd.Conf.Nv.{NvList, empty}
use bmd.Daemon.{Daemon}
use bmd.Server.Requests.{Xucred, CommandEnv, answer}
use bmd.Server.Dispatch.{recv_command}
use bmd.Server.SockBuf.{
  SockBuf, Ret, error, closed, continue, finished, Received, Sending, clear_sock_buf,
  clear_send_sock_buf, recv_sock_buf, send_sock_buf,
}

-- A connection: its buffers, its peer, and whether its two events are enabled.
pub record Client : Type 0 where
  pub buf : SockBuf
  pub peer : Xucred
  pub recv_on : Bool
  pub send_on : Bool

-- create_sock_buf and wait_for_sock_buf: the event that writes is not enabled.
abbrev pub new_client : Xucred → Client
new_client peer = record {
  buf = record {
    read_state = false;
    size = [];
    buf_size = 0;
    buf = [];
    res_fd = none;
    res_buf = [];
    res_bytes = 0;
    sent_size = 0;
  };
  peer = peer;
  recv_on = true;
  send_on = false;
}

-- nvlist_pack and nvlist_unpack.
pub record Packing : Type 0 where
  pub pack : NvList → Option Str
  pub unpack : Str → Option NvList

-- Where the kernel does not take the change, nothing is changed.
unfoldable pub set_sock_buf_wait_flags : Bool → Bool → Bool → Client → Client
set_sock_buf_wait_flags taken recv send c =
    if taken then record c { recv_on = recv; send_on = send } else c

-- The response in the buffer, and whether there is one.
unfoldable pub put_response : Option Str → SockBuf → Bool × SockBuf
put_response none sb = (false, record sb { res_buf = []; res_bytes = 0 })
put_response (some b) sb = (true, record sb { res_buf = b; res_bytes = 0 })

pub pack_response : Packing → NvList → SockBuf → Bool × SockBuf
unfolding put_response answer
pack_response p res sb = elim (p.pack res) [
  | some b ↦ put_response (some b) sb
  | none ↦ put_response (p.pack (answer empty (some (codes "nvlist_pack error")))) sb
]

-- recv_command, with the request and the response as bytes. `false` is -1.
pub recv_request : Packing → CommandEnv → SockBuf → Xucred → Daemon → Bool × SockBuf × Daemon
unfolding pack_response recv_command
recv_request p x sb peer d = elim (p.unpack sb.buf) [
  | none ↦ (false, sb, d)
  | some nv ↦
      let (res, fd, d') = recv_command x nv peer d in
      let (rc, sb') = pack_response p res (record sb { res_fd = fd }) in (rc, sb', d')
]

-- A command that was carried out: its response is sent next.
pub carried_out : Bool → Client → Bool × SockBuf × Daemon → Option Client × Daemon
unfolding set_sock_buf_wait_flags clear_sock_buf
carried_out taken c (false, sb, d) = (some (record c { buf = sb }), d)
carried_out taken c (true, sb, d) =
    (some (set_sock_buf_wait_flags taken false true (record c { buf = clear_sock_buf sb })), d)

pub received_by :
    Packing → CommandEnv → Bool → Client → Daemon → Ret × SockBuf → Option Client × Daemon
unfolding recv_request carried_out
received_by p x taken c d (finished, sb) = carried_out taken c (recv_request p x sb c.peer d)
received_by p x taken c d (continue, sb) = (some (record c { buf = sb }), d)
received_by p x taken c d (_, sb) = (none, d)

-- `none` is the buffer that is destroyed, with its events.
unfoldable pub on_recv_sock_buf :
    Packing → CommandEnv → Bool → Received → Client → Daemon → Option Client × Daemon
unfolding received_by recv_sock_buf
on_recv_sock_buf p x taken r c d = received_by p x taken c d (recv_sock_buf r c.buf)

pub sent_by : Bool → Client → Ret × SockBuf → Option Client
unfolding set_sock_buf_wait_flags clear_send_sock_buf
sent_by taken c (finished, sb) =
    some (set_sock_buf_wait_flags taken true false (record c { buf = clear_send_sock_buf sb }))
sent_by taken c (continue, sb) = some (record c { buf = sb })
sent_by taken c (_, sb) = none

unfoldable pub on_send_sock_buf : Bool → Sending → Client → Option Client
unfolding sent_by send_sock_buf
on_send_sock_buf taken s c = sent_by taken c (send_sock_buf s c.buf)
