-- ===== src/Server/Idle/Next.antt =====
-- The wait that calc_timeout gives ends at the next time-out.
use bmd.Prelude.{
  ℕ, ◌+◌, ◌-◌, ◌≤◌, ◌<◌, ◌≡◌, ◌⊎◌, inl, inr, Bool-cases, none, some, List, [], ◌∷◌, length, All,
  ltb, arith, if◌then◌else◌,
}
use bmd.Server.Idle.{IdleSock, earliest, calc_timeout, close_timeout_sock_buf}

abbrev earlier : ℕ → IdleSock → ℕ
earlier s p = if ltb p.event_time s then p.event_time else s

earlier-le : (s : ℕ) (p : IdleSock) → (earlier s p ≤ s) × (earlier s p ≤ p.event_time)
earlier-le s p = (ground arith, ground arith)

earliest-le : (s : ℕ) (ps : List IdleSock) → earliest s ps ≤ s
unfolding earliest
earliest-le s [] = omega arith
earliest-le s (p ∷ ps) =
    let rest = earliest-le (earlier s p) ps in
    let first = (earlier-le s p).0 in omega (arith, rest, first)

earliest-All : (s : ℕ) (ps : List IdleSock) → All (λ p. earliest s ps ≤ p.event_time) ps
unfolding earliest
earliest-All s [] = tt
earliest-All s (p ∷ ps) =
    let rest = earliest-le (earlier s p) ps in
    let first = (earlier-le s p).1 in (omega (arith, rest, first), earliest-All (earlier s p) ps)

close-le :
    (now timeout : ℕ) (ps : List IdleSock)
    → length (close_timeout_sock_buf now timeout ps) ≤ length ps
unfolding close_timeout_sock_buf
close-le now timeout [] = omega arith
close-le now timeout (p ∷ ps) = let rest = close-le now timeout ps in ground (arith, rest)

closed_first :
    (now timeout : ℕ) (p : IdleSock) (ps : List IdleSock)
    → p.event_time + timeout ≤ now
    → length (close_timeout_sock_buf now timeout (p ∷ ps)) < length (p ∷ ps)
unfolding close_timeout_sock_buf
closed_first now timeout p ps h = let rest = close-le now timeout ps in ground (arith, rest)

closed_rest :
    (now timeout : ℕ) (p : IdleSock) (ps : List IdleSock)
    → length (close_timeout_sock_buf now timeout ps) < length ps
    → length (close_timeout_sock_buf now timeout (p ∷ ps)) < length (p ∷ ps)
unfolding close_timeout_sock_buf
closed_rest now timeout p ps h = ground arith

-- The time that the loop ends with is the first one, or a socket's, which is then closed.
closed_some :
    (now timeout s : ℕ) (ps : List IdleSock)
    → earliest s ps + timeout ≤ now
    → (s + timeout ≤ now) ⊎ (length (close_timeout_sock_buf now timeout ps) < length ps)
unfolding earliest
closed_some now timeout s [] h = inl h
closed_some now timeout s (p ∷ ps) h = elim (closed_some now timeout (earlier s p) ps h) [
  | inr rest ↦ inr (closed_rest now timeout p ps rest)
  | inl first ↦ elim (Bool-cases (ltb p.event_time s)) [
    | inl e ↦ inr (closed_first now timeout p ps (rw e at first))
    | inr e ↦ inl (rw e at first)
  ]
]

closed_due :
    (now timeout : ℕ) (p : IdleSock) (ps : List IdleSock)
    → earliest p.event_time (p ∷ ps) + timeout ≤ now
    → length (close_timeout_sock_buf now timeout (p ∷ ps)) < length (p ∷ ps)
closed_due now timeout p ps h = elim (closed_some now timeout p.event_time (p ∷ ps) h) [
  | inl first ↦ closed_first now timeout p ps first
  | inr rest ↦ rest
]

wait_ends :
    (due now t : ℕ) → (if ltb due now then none else some (due - now)) ≡ some t → now + t ≡ due
wait_ends due now t e = elim (Bool-cases (ltb due now)) [
  | inl early ↦ cc (rw early at e)
  | inr late ↦
      let same : some (due - now) ≡ some t = rw late at e in
      let wait : due - now ≡ t = cc same in ground arith
]

not_due :
    (s timeout end : ℕ) (ps : List IdleSock)
    → end ≡ s + timeout
    → All (λ p. s ≤ p.event_time) ps
    → All (λ p. end ≤ p.event_time + timeout) ps
not_due s timeout end [] e h = tt
not_due s timeout end (p ∷ ps) e h = (omega (arith, e, h.0), not_due s timeout end ps e h.1)

-- Where calc_timeout gives a time and no event lies in the future, the time is at most the time-out,
-- no socket is due before it has passed, and close_timeout_sock_buf then closes one at least.
pub calc_timeout-close_timeout_sock_buf :
    (now timeout t : ℕ) (ps : List IdleSock)
    → All (λ p. p.event_time ≤ now) ps
    → calc_timeout now timeout ps ≡ some t
    → (t ≤ timeout)
      × All (λ p. now + t ≤ p.event_time + timeout) ps
      × (length (close_timeout_sock_buf (now + t) timeout ps) < length ps)
unfolding calc_timeout
calc_timeout-close_timeout_sock_buf now timeout t [] h e = cc
calc_timeout-close_timeout_sock_buf now timeout t (p ∷ ps) h e =
    let s = earliest p.event_time (p ∷ ps) in
    let end : now + t ≡ s + timeout = wait_ends (s + timeout) now t e in
    let first : s ≤ p.event_time = earliest-le p.event_time (p ∷ ps) in
    (
      omega (arith, end, first, h.0),
      not_due s timeout (now + t) (p ∷ ps) end (earliest-All p.event_time (p ∷ ps)),
      closed_due (now + t) timeout p ps (omega (arith, end)),
    )
