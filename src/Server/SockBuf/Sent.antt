-- ===== src/Server/SockBuf/Sent.antt =====
-- What goes out of a response, however the socket divides it.
use bmd.Prelude.{
  ℕ, none, zero, suc, ◌+◌, ◌-◌, ◌≤◌, ◌<◌, ◌≡◌, refl, sym, ap, ◌∙◌, min, true, false, ◌||◌, ◌==◌,
  ==_iff, ltb, List, [], ◌∷◌, ◌++◌, Str, length, length-append, take, drop, Bool-cases, inl, inr,
  ◌⊎◌, arith, if◌then◌else◌,
}
use bmd.Server.SockBuf.{
  SockBuf, Ret, continue, finished, took, htonl, frame, offered, send_bytes, send_sock_buf,
  after_send, send_all,
}
use bmd.Server.SockBuf.Whole.{take-drop, append_assoc, append_same, take_some, length-htonl}

drop-append : (s t : Str) → drop (length s) (s ++ t) ≡ t
drop-append [] t = refl
drop-append (c ∷ s) t = drop-append s t

drop_inside : (n : ℕ) (s t : Str) → n ≤ length s → drop n (s ++ t) ≡ drop n s ++ t
drop_inside zero s t h = refl
drop_inside (suc n) [] t h = ground (arith, h)
drop_inside (suc n) (c ∷ s) t h = drop_inside n s t (omega (arith, h))

minus_zero : (n : ℕ) → n ≡ n - 0
minus_zero n = omega arith

drop_outside : (n : ℕ) (s t : Str) → length s ≤ n → drop n (s ++ t) ≡ drop (n - length s) t
drop_outside zero [] t h = refl
drop_outside zero (c ∷ s) t h = ground (arith, h)
drop_outside (suc n) [] t h = ap (λ m. drop m t) (minus_zero (suc n))
drop_outside (suc n) (c ∷ s) t h =
    drop_outside n s t (omega (arith, h)) ∙ ap (λ m. drop m t) (omega arith)

-- The two ways to offer bytes are one: what is left of the frame.
offered-frame : (sb : SockBuf) → offered sb ≡ drop sb.sent_size (frame sb.res_buf)
unfolding offered frame
offered-frame sb = elim (Bool-cases (ltb sb.sent_size 4)) [
  | inl inside ↦ rw inside (
      sym (
        drop_inside sb.sent_size (htonl (length sb.res_buf)) sb.res_buf
          (ground (arith, inside, length-htonl (length sb.res_buf)))))
  | inr outside ↦ rw outside (
      ap (λ m. drop (sb.sent_size - m) sb.res_buf) (sym (length-htonl (length sb.res_buf)))
      ∙ sym (
          drop_outside sb.sent_size (htonl (length sb.res_buf)) sb.res_buf
            (ground (arith, outside, length-htonl (length sb.res_buf)))))
]

append_nil : (s : Str) → s ++ [] ≡ s
append_nil [] = refl
append_nil (c ∷ s) = ap (λ t. c ∷ t) (append_nil s)

send_some :
    (k : ℕ) (sb : SockBuf)
    → 0 < k
    → send_bytes (took k) sb ≡ (
      if sb.sent_size + k == sb.res_bytes + 4 then finished else continue,
      record sb { res_fd = none; sent_size = sb.sent_size + k },
    )
unfolding send_bytes
send_some zero sb h = ground (arith, h)
send_some (suc k) sb h = refl

take_nonempty : (n : ℕ) (s : Str) → 0 < length s → 0 < length (take (min (suc n) (length s)) s)
take_nonempty n [] h = ground (arith, h)
take_nonempty n (c ∷ s) h = take_some (min (suc n) (suc (length s))) c s (omega arith)

-- The response went out whole, or just its size did.
abbrev pub IsSent : Str → Str → Ret × Str → Type 0
IsSent front buf (r, out) =
    (r ≡ finished) × ((front ++ out ≡ frame buf) ⊎ (front ++ out ≡ htonl (length buf)))

IsSent-longer :
    (front d buf : Str) (r : Ret × Str)
    → IsSent (front ++ d) buf r
    → IsSent front buf (r.0, d ++ r.1)
IsSent-longer front d buf r (fin, inl h) = (fin, inl (sym (append_assoc front d r.1) ∙ h))
IsSent-longer front d buf r (fin, inr h) = (fin, inr (sym (append_assoc front d r.1) ∙ h))

not_done :
    (len sent : ℕ) → 0 < len → (sent == len + 4) ≡ false → ((len == 0) || (sent == len + 4)) ≡ false
not_done len sent h k = ground arith

done_at : (len sent : ℕ) → (sent == len + 4) ≡ true → ((len == 0) || (sent == len + 4)) ≡ true
done_at len sent k = ground arith

length-frame : (buf : Str) → length (frame buf) ≡ 4 + length buf
unfolding frame
length-frame buf =
    length-append (htonl (length buf)) buf ∙ ap (λ n. n + length buf) (length-htonl (length buf))

rest_offered :
    (sb : SockBuf) (front : Str) (left : Str)
    → length front ≡ sb.sent_size
    → front ++ left ≡ frame sb.res_buf
    → offered sb ≡ left
rest_offered sb front left len same =
    offered-frame sb
    ∙ ap (λ t. drop sb.sent_size t) (sym same)
    ∙ ap (λ n. drop n (front ++ left)) (sym len)
    ∙ drop-append front left

frame_parts : (buf : Str) → frame buf ≡ htonl (length buf) ++ buf
unfolding frame
frame_parts buf = refl

still_left :
    (front offer len sent : ℕ)
    → front + offer ≡ 4 + len
    → front ≡ sent
    → (sent == len + 4) ≡ false
    → 0 < offer
still_left front offer len sent sum same part = ground arith

send_from :
    (ns : List ℕ) (sb : SockBuf) (front : Str)
    → sb.res_bytes ≡ 0
    → 0 < length sb.res_buf
    → length front ≡ sb.sent_size
    → front ++ offered sb ≡ frame sb.res_buf
    → 5 + length sb.res_buf ≤ sb.sent_size + length ns
    → IsSent front sb.res_buf (send_all ns sb)
unfolding send_all send_sock_buf after_send
send_from [] sb front zeroed some_buf len same fuel =
    ground
      (arith, fuel, len, ap length same, length-append front (offered sb), length-frame sb.res_buf)
send_from (n ∷ ns) sb front zeroed some_buf len same fuel =
    elim (Bool-cases (sb.sent_size == length sb.res_buf + 4)) [
      | inl all ↦
          let whole =
            append_same front (offered sb) (frame sb.res_buf) []
              (same ∙ sym (append_nil (frame sb.res_buf)))
              (omega (arith, len, (==_iff _ _).0 all, length-frame sb.res_buf)) in
          rw (done_at (length sb.res_buf) sb.sent_size all) (refl, inl (append_nil front ∙ whole.0))
      | inr part ↦
          let k = min (suc n) (length (offered sb)) in
          let d = take k (offered sb) in
          let left = drop k (offered sb) in
          let more =
            still_left _ _ _ _
              (sym (length-append front (offered sb)) ∙ ap length same ∙ length-frame sb.res_buf)
              len part in
          let some_bytes = take_nonempty n (offered sb) more in
          let joined : (front ++ d) ++ left ≡ frame sb.res_buf =
            append_assoc front d left ∙ ap (λ t. front ++ t) (take-drop k (offered sb)) ∙ same in
          let sum : length (front ++ d) ≡ sb.sent_size + length d =
            length-append front d ∙ ap (λ m. m + length d) len in
          let sb' : SockBuf = record sb { res_fd = none; sent_size = sb.sent_size + length d } in
          rw
            (
              not_done (length sb.res_buf) sb.sent_size some_buf part,
              send_some (length d) sb some_bytes,
            )
            (elim (Bool-cases (sb.sent_size + length d == sb.res_bytes + 4)) [
              | inl early ↦
                  let four =
                    sum
                    ∙ (==_iff _ _).0 early
                    ∙ ap (λ m. m + 4) zeroed
                    ∙ sym (length-htonl (length sb.res_buf)) in
                  rw early (
                    refl,
                    inr
                        (append_same (front ++ d) left _ sb.res_buf
                          (joined ∙ frame_parts sb.res_buf) four).0,
                  )
              | inr on ↦ rw on (
                  IsSent-longer front d sb.res_buf (send_all ns sb') (
                    send_from ns sb' (front ++ d) zeroed some_buf sum
                      (ap (λ t. (front ++ d) ++ t) (rest_offered sb' (front ++ d) left sum joined)
                        ∙ joined)
                      (omega (arith, fuel, some_bytes))))
            ])
    ]

-- A response that is sent in at least as many calls as it has bytes, and one more, is finished: it
-- has gone out whole, with its size before it, or nothing of it but the four bytes of its size.
pub send_all-IsSent :
    (ns : List ℕ) (sb : SockBuf)
    → sb.res_bytes ≡ 0
    → sb.sent_size ≡ 0
    → 0 < length sb.res_buf
    → 5 + length sb.res_buf ≤ length ns
    → IsSent [] sb.res_buf (send_all ns sb)
send_all-IsSent ns sb zeroed unsent some_buf fuel =
    send_from ns sb [] zeroed some_buf (sym unsent)
      (offered-frame sb ∙ ap (λ n. drop n (frame sb.res_buf)) unsent) (omega (arith, unsent, fuel))
