-- ===== src/Hook/Tests.antt =====
-- do_io on a system call that would block twice.
use net_ninja.Common.{ℕ, zero, suc, ◌≡◌, refl, Bool, true, false, Option, some}
use net_ninja.FdManager.{FdCtx, TimeoutType, no_timeout, get_timeout}
use net_ninja.Hook.{Errno, Io, Added, Ended, retry, do_io}

-- The state counts the calls that would block.
abbrev blocks : ℕ → Io × ℕ
blocks zero = (Io.returned 4, zero)
blocks (suc n) = (Io.error Errno.eagain, n)

abbrev adds : ℕ → Added × ℕ
adds n = (Added.added, n)

abbrev waits : Bool → ℕ → Option Bool × ℕ
waits timed n = (some false, n)

abbrev socket : FdCtx
socket = record {
  is_init = true;
  is_socket = true;
  sys_nonblock = true;
  user_nonblock = false;
  is_closed = false;
  fd = 3;
  recv_timeout = 5000;
  send_timeout = no_timeout;
}

do_io_run :
    do_io blocks adds waits 3 true (some socket) TimeoutType.so_rcvtimeo 2
    ≡ some (Ended.answered (Io.returned 4) 0)
unfolding do_io retry get_timeout
do_io_run = refl
