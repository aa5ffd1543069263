-- ===== src/Vm/ErrLog.antt =====
-- write_err_log of vm.c, which copies the output of a machine to its log file.
use bmd.Prelude.{
  ℕ, ◌+◌, List, [], ◌∷◌, arith, ◌==◌, ◌≡◌, ◌≢◌, refl, Option, none, some, if◌then◌else◌,
}
use bmd.Vm.{Vm}

-- read(2), with EINTR and EAGAIN repeated: the end, another error, or as many bytes.
pub data ReadReply : Type 0 where
  end_of_file read_error : ReadReply
  bytes : ℕ → ReadReply

-- write(2): as many bytes, an error EINTR or EAGAIN, or another error.
pub data WriteReply : Type 0 where
  wrote : ℕ → WriteReply
  interrupted write_error : WriteReply

-- Forgets a descriptor that is `fd`.
forget : ℕ → Option ℕ → Option ℕ
forget fd none = none
forget fd (some d) = if d == fd then none else some d

-- The loop: `rc = 0` stands behind the first test whatever write(2) returned, so that each round but
-- one with another error closes the log and leaves the loop. The number is that of the bytes
-- written.
pub log_bytes : WriteReply → Vm → Vm × ℕ
log_bytes (wrote n) vm = (record vm { logfd = none }, n)
log_bytes interrupted vm = (record vm { logfd = none }, 0)
log_bytes write_error vm = (vm, 0)

log_if_open : Option ℕ → WriteReply → Vm → Vm × ℕ
unfolding log_bytes
log_if_open none w vm = (vm, 0)
log_if_open (some fd) w vm = log_bytes w vm

-- The bytes that are written to the log stand beside the machine.
unfoldable pub write_err_log : ℕ → ReadReply → WriteReply → Vm → Vm × ℕ
unfolding log_if_open forget
write_err_log fd end_of_file w vm =
    (record vm { outfd = forget fd vm.outfd; errfd = forget fd vm.errfd }, 0)
write_err_log fd read_error w vm = (vm, 0)
write_err_log fd (bytes n) w vm = log_if_open vm.logfd w vm

-- Calls one after another, each with its descriptor and what read(2) and write(2) return, and the
-- bytes that they write to the log.
unfoldable pub log_calls : List (ℕ × ReadReply × WriteReply) → Vm → ℕ
unfolding write_err_log
log_calls [] vm = 0
log_calls ((fd, r, w) ∷ calls) vm =
    let (vm', n) = write_err_log fd r w vm in n + log_calls calls vm'

no_log_in :
    (w : WriteReply) (vm : Vm) (log : Option ℕ)
    → vm.logfd ≡ log
    → log ≡ none
    → ((log_if_open log w vm).1 ≡ 0) × ((log_if_open log w vm).0.logfd ≡ none)
unfolding log_if_open
no_log_in w vm none e h = (refl, e)
no_log_in w vm (some d) e h = cc h

no_log :
    (fd : ℕ) (r : ReadReply) (w : WriteReply) (vm : Vm)
    → vm.logfd ≡ none
    → ((write_err_log fd r w vm).1 ≡ 0) × ((write_err_log fd r w vm).0.logfd ≡ none)
unfolding write_err_log
no_log fd end_of_file w vm h = (refl, h)
no_log fd read_error w vm h = (refl, h)
no_log fd (bytes n) w vm h = no_log_in w vm vm.logfd refl h

no_logs :
    (calls : List (ℕ × ReadReply × WriteReply)) (vm : Vm) → vm.logfd ≡ none → log_calls calls vm ≡ 0
unfolding log_calls
no_logs [] vm h = refl
no_logs ((fd, r, w) ∷ calls) vm h =
    let (nothing, closed) = no_log fd r w vm h in
    let rest = no_logs calls (write_err_log fd r w vm).0 closed in omega (arith, nothing, rest)

closed_in :
    (w : WriteReply) (vm : Vm) (log : Option ℕ)
    → vm.logfd ≡ log
    → w ≢ write_error
    → (log_if_open log w vm).0.logfd ≡ none
unfolding log_if_open log_bytes
closed_in w vm none e h = e
closed_in (wrote n) vm (some fd) e h = refl
closed_in interrupted vm (some fd) e h = refl
closed_in write_error vm (some fd) e h = absurd (h refl)

closed :
    (fd n : ℕ) (w : WriteReply) (vm : Vm)
    → w ≢ write_error
    → (write_err_log fd (bytes n) w vm).0.logfd ≡ none
unfolding write_err_log
closed fd n w vm h = closed_in w vm vm.logfd refl h

-- Once output was read, and the write to the log, if there is one, was complete, partial or
-- interrupted, the calls of write_err_log that follow write nothing to a log, however many they are,
-- whatever is read and whatever write(2) would answer. Only another function can open a log again.
pub write_err_log_once :
    (fd n : ℕ) (w : WriteReply) (calls : List (ℕ × ReadReply × WriteReply)) (vm : Vm)
    → w ≢ write_error
    → log_calls calls (write_err_log fd (bytes n) w vm).0 ≡ 0
write_err_log_once fd n w calls vm h =
    no_logs calls (write_err_log fd (bytes n) w vm).0 (closed fd n w vm h)
