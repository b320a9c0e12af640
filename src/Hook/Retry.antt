-- ===== src/Hook/Retry.antt =====
-- do_io of src/hook.cpp never answers that it was interrupted or would block.
use net_ninja.Common.{ℕ, ◌<◌, ◌≤◌, ◌≡◌, ◌⊎◌, Bool, true, false, Option, none, some}
use net_ninja.Hook.{Errno, Io, Added, Ended}

-- EINTR and EAGAIN.
abbrev pub is_retry : Io → Bool
is_retry (Io.returned n) = false
is_retry (Io.error Errno.eintr) = true
is_retry (Io.error Errno.eagain) = true
is_retry (Io.error Errno.etimedout) = false
is_retry (Io.error Errno.ebadf) = false
is_retry (Io.error (Errno.errno k)) = false

module _ {State : Type 0} (fun : State → Io × State) (add_event : State → Added × State)
    (wait : Bool → State → Option Bool × State) where
  -- The system call is interrupted or would block a bounded number of times.
  pub record IsPatient (tries : State → ℕ) : Type 0 where
    pub called : (s : State) → is_retry (fun s).0 ≡ true → tries (fun s).1 < tries s
    pub added : (s : State) → tries (add_event s).1 ≤ tries s
    pub waited : (timed : Bool) (s : State) → tries (wait timed s).1 ≤ tries s

  -- What the system call answered and is not EINTR or EAGAIN, a timeout where one is set and its timer
  -- cancelled the event, or the errno of an event that could not be added; with the state that this
  -- left. Or an abort of `addEvent`, or a fiber that is not resumed.
  abbrev pub IsFinal : Bool → Ended State → Type 0
  IsFinal timed (Ended.answered r s') =
      ((t : State) × (fun t ≡ (r, s')) × (is_retry r ≡ false))
      ⊎ (((t : State) × (timed ≡ true)
            × (wait timed t ≡ (some true, s'))
            × (r ≡ Io.error Errno.etimedout))
          ⊎ ((t : State) × (e : Errno) × (add_event t ≡ (Added.not_added e, s'))
              × (r ≡ Io.error e)))
  IsFinal timed Ended.aborted = (t : State) × ((add_event t).0 ≡ Added.asserted)
  IsFinal timed (Ended.suspended s') = (t : State) × (wait timed t ≡ (none, s'))

  module _ (tries : State → ℕ) (patient : IsPatient tries) where
    abbrev IsEnded : Bool → Option (Ended State) → Type 0
    IsEnded timed o = (r : Ended State) × (o ≡ some r) × IsFinal timed r
