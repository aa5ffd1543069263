-- ===== src/Server/SockBuf.antt =====
-- The socket buffers of server.c: a message is its size in four bytes, the highest first, and its
-- bytes. `event_time` and the credentials of the peer are left out.
pub mod Whole
pub mod Sent
use bmd.Prelude.{
  ℕ, zero, suc, ◌+◌, ◌-◌, ◌*◌, ◌/◌, ◌%◌, ◌^◌, min, Bool, true, false, not, ◌&&◌, ◌||◌, ◌==◌, ltb,
  Option, none, some, List, [], ◌∷◌, ◌++◌, Str, length, take, drop, is_some, if◌then◌else◌,
}

-- `size` and `buf` are the bytes that were read, so read_size and read_bytes are their lengths, and
-- res_size is that of `res_buf`.
pub record SockBuf : Type 0 where
  pub read_state : Bool
  pub size : Str
  pub buf_size : ℕ
  pub buf : Str
  pub res_fd : Option ℕ
  pub res_buf : Str
  pub res_bytes : ℕ
  pub sent_size : ℕ

-- -1, 0, 1 and 2.
pub data Ret : Type 0 where
  error closed continue finished : Ret

-- What recv(2) returns, EINTR left aside.
pub data Received : Type 0 where
  data_of : Str → Received
  again end failed : Received

unfoldable pub clear_sock_buf : SockBuf → SockBuf
clear_sock_buf sb = record sb { read_state = false; size = []; buf_size = 0; buf = [] }

unfoldable pub clear_send_sock_buf : SockBuf → SockBuf
clear_send_sock_buf sb = record sb { sent_size = 0; res_fd = none; res_buf = []; res_bytes = 0 }

-- `ntohl` of the four bytes.
unfoldable pub ntohl : Str → ℕ
ntohl (a ∷ b ∷ c ∷ d ∷ []) = a * 2 ^ 24 + b * 2 ^ 16 + c * 2 ^ 8 + d
ntohl _ = 0

-- How many bytes are missing, and how many are asked for: one, to see the end, if none is missing.
unfoldable pub missing : SockBuf → ℕ
missing sb = if sb.read_state then sb.buf_size - length sb.buf else 4 - length sb.size

unfoldable pub asked : SockBuf → ℕ
unfolding missing
asked sb = if missing sb == 0 then 1 else missing sb

unfoldable pub read_head : Str → SockBuf → Ret × SockBuf
unfolding ntohl
read_head d sb =
    let size = sb.size ++ d in
    let whole = record sb { read_state = true; size = size; buf_size = ntohl size; buf = [] } in
    if length size == 4
    then (if ltb (1024 * 1024) (ntohl size) then (error, whole) else (continue, whole))
    else (continue, record sb { size = size })

unfoldable pub read_body : Str → SockBuf → Ret × SockBuf
read_body d sb =
    let buf = sb.buf ++ d in
    (if length buf == sb.buf_size then finished else continue, record sb { buf = buf })

unfoldable pub read_data : Str → SockBuf → Ret × SockBuf
unfolding missing read_head read_body
read_data d sb =
    if missing sb == 0
    then (error, sb)
    else if sb.read_state
    then read_body d sb
    else read_head d sb

unfoldable pub recv_sock_buf : Received → SockBuf → Ret × SockBuf
unfolding read_data
recv_sock_buf (data_of d) sb = read_data d sb
recv_sock_buf again sb = (continue, sb)
recv_sock_buf end sb = (closed, sb)
recv_sock_buf failed sb = (error, sb)

-- The bytes that a message is sent as.
unfoldable pub htonl : ℕ → Str
htonl n = (n / 2 ^ 24) % 256 ∷ (n / 2 ^ 16) % 256 ∷ (n / 2 ^ 8) % 256 ∷ n % 256 ∷ []

unfoldable pub frame : Str → Str
unfolding htonl
frame msg = htonl (length msg) ++ msg

-- recv(2) where the bytes `stream` are on their way and at most `n + 1` of them have arrived.
pub receive : ℕ → Str → ℕ → Received
receive n [] room = again
receive n (c ∷ stream) room = data_of (take (min (suc n) room) (c ∷ stream))

-- The calls of recv_sock_buf for one message, with what has arrived before each of them; what is
-- left of the stream comes last. A call that does not say `continue` is the last one.
pub after : Ret → SockBuf → Str → (SockBuf → Str → Ret × SockBuf × Str) → Ret × SockBuf × Str
after continue sb rest more = more sb rest
after r sb rest more = (r, sb, rest)

unfoldable pub receive_all : List ℕ → SockBuf → Str → Ret × SockBuf × Str
unfolding receive asked recv_sock_buf after
receive_all [] sb stream = (continue, sb, stream)
receive_all (n ∷ ns) sb stream =
    let (r, sb') = recv_sock_buf (receive n stream (asked sb)) sb in
    after r sb' (drop (min (suc n) (asked sb)) stream) (receive_all ns)

-- What sendmsg(2) does, EINTR left aside: the number of bytes that it takes.
pub data Sending : Type 0 where
  took : ℕ → Sending
  would_block broken : Sending

-- The bytes of `iov`: what is left of the size and the response, or of the response.
unfoldable pub offered : SockBuf → Str
unfolding htonl
offered sb =
    if ltb sb.sent_size 4
    then drop sb.sent_size (htonl (length sb.res_buf)) ++ sb.res_buf
    else drop (sb.sent_size - 4) sb.res_buf

-- The result after `n` bytes were sent. The descriptor goes with the first call, whatever its
-- result.
unfoldable pub send_bytes : Sending → SockBuf → Ret × SockBuf
send_bytes (took zero) sb = (closed, record sb { res_fd = none })
send_bytes (took (suc n)) sb =
    let sent = sb.sent_size + suc n in
    (
      if sent == sb.res_bytes + 4 then finished else continue,
      record sb { res_fd = none; sent_size = sent },
    )
send_bytes would_block sb = (continue, record sb { res_fd = none })
send_bytes broken sb = (error, record sb { res_fd = none })

unfoldable pub send_sock_buf : Sending → SockBuf → Ret × SockBuf
unfolding send_bytes
send_sock_buf reply sb =
    if length sb.res_buf == 0 || sb.sent_size == length sb.res_buf + 4
    then (finished, sb)
    else send_bytes reply sb

-- The calls of send_sock_buf for one response, where the socket has room for `n + 1` bytes at each
-- call, and the bytes that go out.
pub after_send : Str → Ret → SockBuf → (SockBuf → Ret × Str) → Ret × Str
after_send d continue sb more = let (r, out) = more sb in (r, d ++ out)
after_send d r sb more = (r, d)

unfoldable pub send_all : List ℕ → SockBuf → Ret × Str
unfolding offered send_sock_buf after_send
send_all [] sb = (continue, [])
send_all (n ∷ ns) sb =
    let d = take (min (suc n) (length (offered sb))) (offered sb) in
    let (r, sb') = send_sock_buf (took (length d)) sb in
    after_send (if length sb.res_buf == 0 || sb.sent_size == length sb.res_buf + 4 then [] else d) r
      sb' (send_all ns)
