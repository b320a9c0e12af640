-- ===== src/Hook.antt =====
-- src/hook.cpp: `do_io`, which every hooked read and write calls, and which waits where the system call
-- would block. The system call is the parameter `fun`. `add_event` is IOManager::addEvent, with the
-- errno that it leaves where it fails, or the abort where the event is registered already. `wait` is
-- what comes to pass until the fiber that yielded is resumed: whether the timer, if one was set, had
-- cancelled the event; or the fiber is never resumed. The loop has fuel; as many turns
-- as there are calls that do not end it are enough.
pub mod Retry
mod Tests
use net_ninja.Common.{
  ℕ, zero, suc, Bool, true, false, not, ◌&&◌, ◌||◌, Option, none, some, ◌==◌, if◌then◌else◌,
}
use net_ninja.FdManager.{FdCtx, TimeoutType, no_timeout, get_timeout}

pub data Errno : Type 0 where
  eintr eagain etimedout ebadf : Errno
  errno : ℕ → Errno

-- A result that is not -1, or -1 with errno.
pub data Io : Type 0 where
  returned : ℕ → Io
  error : Errno → Io

-- What addEvent does: 0, -1 with errno, or an abort.
pub data Added : Type 0 where
  added : Added
  not_added : Errno → Added
  asserted : Added

-- The result with the state, an abort, or a fiber that waits for ever.
pub data Ended (State : Type 0) : Type 0 where
  answered : Io → State → Ended State
  aborted : Ended State
  suspended : State → Ended State

module _ {State : Type 0} (fun : State → Io × State) (add_event : State → Added × State)
    (wait : Bool → State → Option Bool × State) where
  -- From `retry` on; `timed` says whether there is a timeout. A call that was interrupted is made again
  -- in the inner loop, which is the next turn here.
  unfoldable pub retry : ℕ → Bool → State → Option (Ended State)
  retry zero timed s = none
  retry (suc fuel) timed s =
      let s1 = (fun s).1 in
      let again = retry fuel timed s1 in
      let s2 = (add_event s1).1 in
      let s3 = (wait timed s2).1 in
      let resumed = retry fuel timed s3 in
      let held : Option (Ended State) = elim (add_event s1).0 [
        | not_added e ↦ some (Ended.answered (Io.error e) s2)
        | asserted ↦ some Ended.aborted
        | added ↦ elim (wait timed s2).0 [
          | none ↦ some (Ended.suspended s3)
          | some cancelled ↦
              if timed && cancelled
              then some (Ended.answered (Io.error Errno.etimedout) s3)
              else resumed
        ]
      ] in
      elim (fun s).0 [
        | returned n ↦ some (Ended.answered (Io.returned n) s1)
        | error e ↦ elim e [
          | eintr ↦ again
          | eagain ↦ held
          | etimedout ↦ some (Ended.answered (Io.error Errno.etimedout) s1)
          | ebadf ↦ some (Ended.answered (Io.error Errno.ebadf) s1)
          | errno k ↦ some (Ended.answered (Io.error (Errno.errno k)) s1)
        ]
      ]

  -- `ctx` is what the FdManager knows of the descriptor.
  unfoldable pub do_io : ℕ → Bool → Option FdCtx → TimeoutType → State → Option (Ended State)
  do_io fuel enabled ctx timeout_so s =
      let hooked : Option (Ended State) = elim ctx [
        | none ↦ some (Ended.answered (fun s).0 (fun s).1)
        | some c ↦
            if c.is_closed
            then some (Ended.answered (Io.error Errno.ebadf) s)
            else if not c.is_socket || c.user_nonblock
            then some (Ended.answered (fun s).0 (fun s).1)
            else retry fuel (not (get_timeout c timeout_so == no_timeout)) s
      ] in
      if enabled then hooked else some (Ended.answered (fun s).0 (fun s).1)
