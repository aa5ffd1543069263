-- ===== src/Server/Idle.antt =====
-- The time-outs of the sockets in server.c: how long event_loop waits, and which socket buffers it
-- then closes. Of a socket buffer there is its descriptor and the time of its last event; times are
-- in seconds.
pub mod Next
use bmd.Prelude.{
  ℕ, ◌+◌, ◌-◌, Bool, true, false, Option, none, some, List, [], ◌∷◌, ltb, leb, if◌then◌else◌,
}

pub record IdleSock : Type 0 where
  pub fd : ℕ
  pub event_time : ℕ

-- The loop over the list, from the time `s` on.
unfoldable pub earliest : ℕ → List IdleSock → ℕ
earliest s [] = s
earliest s (p ∷ ps) = earliest (if ltb p.event_time s then p.event_time else s) ps

-- `none` is NULL: no limit. `t < 0` is that the sum is before `now`.
unfoldable pub calc_timeout : ℕ → ℕ → List IdleSock → Option ℕ
unfolding earliest
calc_timeout now timeout [] = none
calc_timeout now timeout (p ∷ ps) =
    let due = earliest p.event_time (p ∷ ps) + timeout in
    if ltb due now then none else some (due - now)

-- The list that is left.
unfoldable pub close_timeout_sock_buf : ℕ → ℕ → List IdleSock → List IdleSock
close_timeout_sock_buf now timeout [] = []
close_timeout_sock_buf now timeout (p ∷ ps) =
    let rest = close_timeout_sock_buf now timeout ps in
    if leb (p.event_time + timeout) now then rest else p ∷ rest
