-- ===== src/Server/SockBuf/Whole.antt =====
-- A message arrives whole, however the socket divides it.
use bmd.Prelude.{
  ℕ, zero, suc, ◌+◌, ◌-◌, ◌*◌, ◌^◌, ◌≤◌, ◌<◌, ◌≡◌, refl, sym, ap, ◌∙◌, min, true, false, ◌==◌,
  ==_iff, ltb, List, [], ◌∷◌, ◌++◌, Str, length, length-append, take, drop, Bool-cases, inl, inr,
  arith,
}
use bmd.Server.SockBuf.{
  SockBuf, Ret, finished, ntohl, htonl, frame, missing, asked, read_head, read_body, read_data,
  recv_sock_buf, receive, after, receive_all, clear_sock_buf,
}

pub take-drop : (n : ℕ) (s : Str) → take n s ++ drop n s ≡ s
take-drop zero s = refl
take-drop (suc n) [] = refl
take-drop (suc n) (c ∷ s) = ap (λ t. c ∷ t) (take-drop n s)

pub append_assoc : (s t u : Str) → (s ++ t) ++ u ≡ s ++ (t ++ u)
append_assoc [] t u = refl
append_assoc (c ∷ s) t u = ap (λ r. c ∷ r) (append_assoc s t u)

pub take_short : (n : ℕ) (s : Str) → length (take n s) ≤ n
take_short zero s = omega arith
take_short (suc n) [] = omega arith
take_short (suc n) (c ∷ s) = omega (arith, take_short n s)

-- Two parts of equal length of one text agree.
pub append_same : (s t u v : Str) → s ++ t ≡ u ++ v → length s ≡ length u → (s ≡ u) × (t ≡ v)
append_same [] t [] v h l = (refl, h)
append_same [] t (b ∷ u) v h l = ground (arith, l)
append_same (a ∷ s) t [] v h l = ground (arith, l)
append_same (a ∷ s) t (b ∷ u) v h l =
    let r = append_same s t u v (cc h) (omega (arith, l)) in
    let hd : a ≡ b = cc h in let tl : s ≡ u = r.0 in (cc (hd, tl), r.1)

ntohl-htonl : (n : ℕ) → n < 2 ^ 32 → ntohl (htonl n) ≡ n
unfolding ntohl htonl
ntohl-htonl n h = omega arith

-- The length of a nonempty take.
pub take_some : (n c : ℕ) (s : Str) → 0 < n → 0 < length (take n (c ∷ s))
take_some zero c s h = omega arith
take_some (suc n) c s h = omega arith

-- The message was received, and the rest of the stream is left.
abbrev pub IsWhole : Str → Str → Ret × SockBuf × Str → Type 0
IsWhole msg rest (r, sb, left) = (r ≡ finished) × (sb.buf ≡ msg) × (left ≡ rest)

read_data_body :
    (d : Str) (sb : SockBuf)
    → sb.read_state ≡ true
    → length sb.buf < sb.buf_size
    → read_data d sb ≡ read_body d sb
unfolding read_data missing
read_data_body d sb st h = ground arith

asked_body :
    (sb : SockBuf)
    → sb.read_state ≡ true
    → length sb.buf < sb.buf_size
    → asked sb ≡ sb.buf_size - length sb.buf
unfolding asked missing
asked_body sb st h = ground arith

min_right : (a b : ℕ) → min a b ≤ b
min_right a b = omega arith

still_short :
    (total new old msg size room : ℕ) {k : ℕ}
    → total ≡ old + new
    → new ≤ k
    → k ≤ room
    → room ≡ msg - old
    → size ≡ msg
    → old < msg
    → (total == size) ≡ false
    → total < msg
still_short total new old msg size room sum few least missing same short part = ground arith

receive_all_body :
    (ns : List ℕ) (sb : SockBuf) (stream msg rest : Str)
    → sb.read_state ≡ true
    → sb.buf_size ≡ length msg
    → sb.buf ++ stream ≡ msg ++ rest
    → length sb.buf < length msg
    → length msg ≤ length sb.buf + length ns
    → IsWhole msg rest (receive_all ns sb stream)
unfolding receive_all recv_sock_buf receive after
receive_all_body [] sb stream msg rest st size same short fuel = ground (arith, short, fuel)
receive_all_body (n ∷ ns) sb [] msg rest st size same short fuel =
    ground (arith, short, ap length same, length-append sb.buf [], length-append msg rest)
receive_all_body (n ∷ ns) sb (c ∷ stream) msg rest st size same short fuel =
    let k = min (suc n) (asked sb) in
    let d = take k (c ∷ stream) in
    let left = drop k (c ∷ stream) in
    let room : asked sb ≡ length msg - length sb.buf =
      asked_body sb st (omega (arith, size, short)) ∙ ap (λ m. m - length sb.buf) size in
    let joined : (sb.buf ++ d) ++ left ≡ msg ++ rest =
      append_assoc sb.buf d left ∙ ap (λ t. sb.buf ++ t) (take-drop k (c ∷ stream)) ∙ same in
    let grown = length-append sb.buf d in
    let some_bytes = take_some k c stream (omega (arith, room, short)) in
    let few = take_short k (c ∷ stream) in
    rw (read_data_body d sb st (omega (arith, size, short)))
      (elim (Bool-cases (length (sb.buf ++ d) == sb.buf_size)) [
        | inl full ↦
            let whole =
              append_same (sb.buf ++ d) left msg rest joined ((==_iff _ _).0 full ∙ size) in
            rw full (refl, whole.0, whole.1)
        | inr part ↦ rw part (
            receive_all_body ns (record sb { buf = sb.buf ++ d }) left msg rest st size joined
              (still_short _ (length d) _ _ _ (asked sb) grown few (min_right (suc n) (asked sb))
                room size short part)
              (omega (arith, grown, some_bytes, fuel)))
      ])

read_data_head :
    (d : Str) (sb : SockBuf)
    → sb.read_state ≡ false
    → length sb.size < 4
    → read_data d sb ≡ read_head d sb
unfolding read_data missing
read_data_head d sb st h = ground arith

asked_head :
    (sb : SockBuf) → sb.read_state ≡ false → length sb.size < 4 → asked sb ≡ 4 - length sb.size
unfolding asked missing
asked_head sb st h = ground arith

pub length-htonl : (n : ℕ) → length (htonl n) ≡ 4
unfolding htonl
length-htonl n = refl

not_too_long : (m n : ℕ) → m ≡ n → n ≤ 1024 * 1024 → ltb (1024 * 1024) m ≡ false
not_too_long m n h k = ground arith

receive_all_head :
    (ns : List ℕ) (sb : SockBuf) (stream msg rest : Str)
    → sb.read_state ≡ false
    → sb.size ++ stream ≡ htonl (length msg) ++ (msg ++ rest)
    → length sb.size < 4
    → 0 < length msg
    → length msg ≤ 1024 * 1024
    → 4 + length msg ≤ length sb.size + length ns
    → IsWhole msg rest (receive_all ns sb stream)
unfolding receive_all recv_sock_buf receive after read_head
receive_all_head [] sb stream msg rest st same short some_msg small fuel =
    ground (arith, short, fuel)
receive_all_head (n ∷ ns) sb [] msg rest st same short some_msg small fuel = ground (
  arith,
  short,
  ap length same,
  length-append sb.size [],
  length-append (htonl (length msg)) (msg ++ rest),
  length-htonl (length msg),
)
receive_all_head (n ∷ ns) sb (c ∷ stream) msg rest st same short some_msg small fuel =
    let k = min (suc n) (asked sb) in
    let d = take k (c ∷ stream) in
    let left = drop k (c ∷ stream) in
    let room = asked_head sb st short in
    let joined : (sb.size ++ d) ++ left ≡ htonl (length msg) ++ (msg ++ rest) =
      append_assoc sb.size d left ∙ ap (λ t. sb.size ++ t) (take-drop k (c ∷ stream)) ∙ same in
    let grown = length-append sb.size d in
    let some_bytes = take_some k c stream (omega (arith, room, short)) in
    let few = take_short k (c ∷ stream) in
    rw (read_data_head d sb st short) (elim (Bool-cases (length (sb.size ++ d) == 4)) [
      | inl full ↦
          let whole =
            append_same (sb.size ++ d) left (htonl (length msg)) (msg ++ rest) joined
              ((==_iff _ _).0 full ∙ sym (length-htonl (length msg))) in
          let value : ntohl (sb.size ++ d) ≡ length msg =
            ap ntohl whole.0 ∙ ntohl-htonl (length msg) (omega (arith, small)) in
          rw (full, not_too_long _ _ value small)
            (receive_all_body ns
              (record sb {
                read_state = true;
                size = sb.size ++ d;
                buf_size = ntohl (sb.size ++ d);
                buf = [];
              })
              left msg rest refl value whole.1 some_msg
              (omega (arith, fuel, short, (==_iff _ _).0 full, grown)))
      | inr part ↦ rw part (
          receive_all_head ns (record sb { size = sb.size ++ d }) left msg rest st joined
            (still_short _ (length d) _ _ _ (asked sb) grown few (min_right (suc n) (asked sb)) room
              refl short part)
            some_msg small (omega (arith, grown, some_bytes, fuel)))
    ])

-- A message of 1 to 1048576 bytes, sent with its size before it, is received whole into a cleared
-- buffer, however the socket divides the bytes, once there were as many calls as bytes; what comes
-- after the message on the stream is not read.
pub receive_all-IsWhole :
    (ns : List ℕ) (sb : SockBuf) (msg rest : Str)
    → 0 < length msg
    → length msg ≤ 1024 * 1024
    → 4 + length msg ≤ length ns
    → IsWhole msg rest (receive_all ns (clear_sock_buf sb) (frame msg ++ rest))
unfolding clear_sock_buf frame
receive_all-IsWhole ns sb msg rest some_msg small fuel =
    receive_all_head ns (clear_sock_buf sb) (frame msg ++ rest) msg rest refl
      (append_assoc (htonl (length msg)) msg rest) (omega arith) some_msg small
      (omega (arith, fuel))
