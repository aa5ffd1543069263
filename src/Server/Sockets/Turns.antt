-- ===== src/Server/Sockets/Turns.antt =====
-- A connection reads a request or sends a response, never both.
use bmd.Prelude.{
  zero, suc, ◌+◌, ◌==◌, ◌||◌, length, if_both, ◌≡◌, ◌⊎◌, inl, inr, refl, ◌∙◌, Bool, true, false,
  Option, Option-cases, none, some, [], Str, arith,
}
use mathlib.Core.Path.{subst}
use bmd.Conf.Nv.{NvList}
use bmd.Daemon.{Daemon}
use bmd.Server.Requests.{Xucred, CommandEnv}
use bmd.Server.SockBuf.{
  SockBuf, Ret, error, closed, continue, finished, Received, data_of, again, end, failed, Sending,
  took, would_block, broken, recv_sock_buf, read_data, read_head, read_body, send_sock_buf,
  send_bytes,
}
use bmd.Server.Sockets.{
  Client, Packing, new_client, set_sock_buf_wait_flags, put_response, pack_response, recv_request,
  carried_out, received_by, on_recv_sock_buf, sent_by, on_send_sock_buf,
}

-- Requests are read, and no response is left; or a response is sent, and no request is left.
pub record IsReading (c : Client) : Type 0 where
  pub recv_on : c.recv_on ≡ true
  pub send_on : c.send_on ≡ false
  pub res_buf : c.buf.res_buf ≡ []
  pub sent_size : c.buf.sent_size ≡ 0

pub record IsSending (c : Client) : Type 0 where
  pub recv_on : c.recv_on ≡ false
  pub send_on : c.send_on ≡ true
  pub read_state : c.buf.read_state ≡ false
  pub size : c.buf.size ≡ []
  pub buf : c.buf.buf ≡ []

abbrev pub HasTurn : Client → Type 0
HasTurn c = IsReading c ⊎ IsSending c

abbrev AllTurns : Option Client → Type 0
AllTurns none = Unit
AllTurns (some c) = HasTurn c

-- A callback of an event that is enabled, which does not destroy the buffer. The kernel takes the
-- changes of the events.
pub data Step : Client → Client → Type 0 where
  read :
      (p : Packing) (x : CommandEnv) (r : Received) (d : Daemon) (c c' : Client)
      → c.recv_on ≡ true
      → (on_recv_sock_buf p x true r c d).0 ≡ some c'
      → Step c c'
  write :
      (s : Sending) (c c' : Client)
      → c.send_on ≡ true
      → on_send_sock_buf true s c ≡ some c'
      → Step c c'

pub data Reach (s : Client) : Client → Type 0 where
  here : Reach s s
  next : {b c : Client} → Reach s b → Step b c → Reach s c

-- The response in a buffer is empty, or is one of a call that succeeded.
record Empties (r : Bool × SockBuf) : Type 0 where
  sent_size : r.1.sent_size ≡ 0
  res_buf : r.0 ≡ false → r.1.res_buf ≡ []

put_response-Empties :
    (o : Option Str) (sb : SockBuf) → sb.sent_size ≡ 0 → Empties (put_response o sb)
unfolding put_response
put_response-Empties none sb h = record { sent_size = h; res_buf = λ e. refl }
put_response-Empties (some b) sb h = record { sent_size = h; res_buf = λ e. cc e }

pack_response-Empties :
    (p : Packing) (res : NvList) (sb : SockBuf)
    → sb.sent_size ≡ 0
    → Empties (pack_response p res sb)
unfolding pack_response
pack_response-Empties p res sb h = elim (Option-cases (p.pack res)) [
  | inl e ↦ rw (e, pack_response) (put_response-Empties _ sb h)
  | inr (b, e) ↦ rw (e, pack_response) (put_response-Empties (some b) sb h)
]

abbrev first_two : Bool × SockBuf × Daemon → Bool × SockBuf
first_two (rc, sb, d) = (rc, sb)

recv_request-Empties :
    (p : Packing) (x : CommandEnv) (sb : SockBuf) (peer : Xucred) (d : Daemon)
    → sb.res_buf ≡ []
    → sb.sent_size ≡ 0
    → Empties (first_two (recv_request p x sb peer d))
unfolding recv_request
recv_request-Empties p x sb peer d hb hs = elim (Option-cases (p.unpack sb.buf)) [
  | inl e ↦ rw (e, recv_request) (record { sent_size = hs; res_buf = λ _. hb })
  | inr (nv, e) ↦ rw (e, recv_request) (pack_response-Empties p _ _ hs)
]

carried_out-HasTurn :
    (c : Client) (r : Bool × SockBuf × Daemon)
    → c.recv_on ≡ true
    → c.send_on ≡ false
    → Empties (first_two r)
    → AllTurns (carried_out true c r).0
unfolding carried_out set_sock_buf_wait_flags
carried_out-HasTurn c (false, sb, d) hr hs h =
    inl (record { recv_on = hr; send_on = hs; res_buf = h.res_buf refl; sent_size = h.sent_size })
carried_out-HasTurn c (true, sb, d) hr hs h =
    inr (record { recv_on = refl; send_on = refl; read_state = refl; size = refl; buf = refl })

received_by-HasTurn :
    (p : Packing) (x : CommandEnv) (c : Client) (d : Daemon) (r : Ret × SockBuf)
    → c.recv_on ≡ true
    → c.send_on ≡ false
    → r.1.res_buf ≡ []
    → r.1.sent_size ≡ 0
    → AllTurns (received_by p x true c d r).0
unfolding received_by
received_by-HasTurn p x c d (error, sb) hr hs hb hn = tt
received_by-HasTurn p x c d (closed, sb) hr hs hb hn = tt
received_by-HasTurn p x c d (continue, sb) hr hs hb hn =
    inl (record { recv_on = hr; send_on = hs; res_buf = hb; sent_size = hn })
received_by-HasTurn p x c d (finished, sb) hr hs hb hn =
    carried_out-HasTurn c _ hr hs (recv_request-Empties p x sb c.peer d hb hn)

recv_res_buf : (r : Received) (sb : SockBuf) → (recv_sock_buf r sb).1.res_buf ≡ sb.res_buf
unfolding recv_sock_buf read_data read_head read_body
recv_res_buf (data_of d) sb = ground arith
recv_res_buf again sb = refl
recv_res_buf end sb = refl
recv_res_buf failed sb = refl

recv_sent_size : (r : Received) (sb : SockBuf) → (recv_sock_buf r sb).1.sent_size ≡ sb.sent_size
unfolding recv_sock_buf read_data read_head read_body
recv_sent_size (data_of d) sb = ground arith
recv_sent_size again sb = refl
recv_sent_size end sb = refl
recv_sent_size failed sb = refl

on_recv-HasTurn :
    (p : Packing) (x : CommandEnv) (r : Received) (d : Daemon) (c : Client)
    → IsReading c
    → AllTurns (on_recv_sock_buf p x true r c d).0
unfolding on_recv_sock_buf
on_recv-HasTurn p x r d c h =
    received_by-HasTurn p x c d (recv_sock_buf r c.buf) h.recv_on h.send_on
      (recv_res_buf r c.buf ∙ h.res_buf) (recv_sent_size r c.buf ∙ h.sent_size)

-- The request side of two buffers is the same.
record SameRequest (a b : SockBuf) : Type 0 where
  read_state : a.read_state ≡ b.read_state
  size : a.size ≡ b.size
  buf : a.buf ≡ b.buf

send_bytes-SameRequest : (s : Sending) (sb : SockBuf) → SameRequest (send_bytes s sb).1 sb
unfolding send_bytes
send_bytes-SameRequest (took zero) sb = record { read_state = refl; size = refl; buf = refl }
send_bytes-SameRequest (took (suc n)) sb = record { read_state = refl; size = refl; buf = refl }
send_bytes-SameRequest would_block sb = record { read_state = refl; size = refl; buf = refl }
send_bytes-SameRequest broken sb = record { read_state = refl; size = refl; buf = refl }

send-SameRequest : (s : Sending) (sb : SockBuf) → SameRequest (send_sock_buf s sb).1 sb
unfolding send_sock_buf
send-SameRequest s sb =
    if_both (λ (r : Ret × SockBuf). SameRequest r.1 sb)
      (length sb.res_buf == 0 || sb.sent_size == length sb.res_buf + 4) _ _
      (record { read_state = refl; size = refl; buf = refl }) (send_bytes-SameRequest s sb)

sent_by-HasTurn :
    (c : Client) (r : Ret × SockBuf)
    → IsSending c
    → SameRequest r.1 c.buf
    → AllTurns (sent_by true c r)
unfolding sent_by set_sock_buf_wait_flags
sent_by-HasTurn c (error, sb) h k = tt
sent_by-HasTurn c (closed, sb) h k = tt
sent_by-HasTurn c (continue, sb) h k = inr (record {
  recv_on = h.recv_on;
  send_on = h.send_on;
  read_state = k.read_state ∙ h.read_state;
  size = k.size ∙ h.size;
  buf = k.buf ∙ h.buf;
})
sent_by-HasTurn c (finished, sb) h k =
    inl (record { recv_on = refl; send_on = refl; res_buf = refl; sent_size = refl })

on_send-HasTurn : (s : Sending) (c : Client) → IsSending c → AllTurns (on_send_sock_buf true s c)
unfolding on_send_sock_buf
on_send-HasTurn s c h = sent_by-HasTurn c (send_sock_buf s c.buf) h (send-SameRequest s c.buf)

turn_of : (o : Option Client) (c : Client) → o ≡ some c → AllTurns o → HasTurn c
turn_of o c e h = subst AllTurns e h

Step-HasTurn : {c c' : Client} → Step c c' → HasTurn c → HasTurn c'
Step-HasTurn (read p x r d c c' on e) (inl h) = turn_of _ c' e (on_recv-HasTurn p x r d c h)
Step-HasTurn (read p x r d c c' on e) (inr h) = cc (on, h.recv_on)
Step-HasTurn (write s c c' on e) (inl h) = cc (on, h.send_on)
Step-HasTurn (write s c c' on e) (inr h) = turn_of _ c' e (on_send-HasTurn s c h)

new-HasTurn : (peer : Xucred) → HasTurn (new_client peer)
new-HasTurn peer = inl (record { recv_on = refl; send_on = refl; res_buf = refl; sent_size = refl })

-- Whatever arrives on a connection and whatever its commands do, where the kernel takes the changes
-- of the events, the connection either reads, with nothing left of a response, or sends, with nothing
-- left of a request: exactly one of its two events is enabled.
pub Reach-HasTurn : (peer : Xucred) (c : Client) → Reach (new_client peer) c → HasTurn c
Reach-HasTurn peer c here = new-HasTurn peer
Reach-HasTurn peer c (next {b} r s) = Step-HasTurn s (Reach-HasTurn peer b r)
