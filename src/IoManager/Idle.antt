-- ===== src/IoManager/Idle.antt =====
-- When `idle` of src/iomanager.cpp ends, and how long it waits.
use net_ninja.Common.{
  ℕ, ◌-◌, ◌%◌, ◌^◌, ◌<◌, ◌≡◌, refl, Bool, true, not, ◌&&◌, ◌||◌, List, [], ◌∷◌, ltb, leb, ◌==◌,
  arith, if◌then◌else◌,
}
use net_ninja.IoManager.{IoManager}
use net_ninja.IoManager.Table.{total}
use net_ninja.IoManager.Steps.{IsReachable, reachable-IsConserved}
use net_ninja.Scheduler.{FiberOrCb, Scheduler, is_nil, stopping}
use net_ninja.Timer.{TimerManager, get_timer_next}

-- `stopping(timeout)` of an IOManager, which is a Scheduler and a TimerManager.
-- `now` is the clock that getTimerNext reads; the timeout is given back.
unfoldable pub io_stopping : IoManager → Scheduler → TimerManager → ℕ → Bool × ℕ × TimerManager
io_stopping m s t now =
    let (timeout, t') = get_timer_next t now in
    (timeout == 2 ^ 64 - 1 && m.pending == 0 && stopping s, timeout, t')

abbrev pub max_timeout : ℕ
max_timeout = 3000

-- The bits of the int that epoll_wait is given for a timeout: 2 ^ 31 and more stand for an int below
-- zero, with which it waits for ever.
unfoldable pub poll_timeout : ℕ → ℕ
poll_timeout next_timeout =
    if next_timeout == 2 ^ 64 - 1
    then max_timeout
    else if ltb (next_timeout % 2 ^ 32) (2 ^ 31) && ltb max_timeout (next_timeout % 2 ^ 32)
    then max_timeout
    else next_timeout % 2 ^ 32

-- epoll_wait is given at most MAX_TIMEOUT, and no more than the time to the next timer, unless the
-- timeout has the bit 2 ^ 31 and is not ~0: then it waits until an event comes.
pub poll_timeout-IsBounded :
    (next_timeout : ℕ)
    → next_timeout < 2 ^ 64
    → let unbounded = not (next_timeout == 2 ^ 64 - 1) && leb (2 ^ 31) (next_timeout % 2 ^ 32) in
      (leb (poll_timeout next_timeout) max_timeout ≡ not unbounded)
      × (leb (2 ^ 31) (poll_timeout next_timeout) ≡ unbounded)
      × ((unbounded || leb (poll_timeout next_timeout) next_timeout) ≡ true)
unfolding poll_timeout
poll_timeout-IsBounded next_timeout h = (ground arith, ground arith, ground arith)

-- After any calls that leave less than 2 ^ 64 events registered, `idle` ends only when there are none,
-- getTimerNext answers ~0, no task is queued, no thread is active and the scheduler was stopped.
pub io_stopping-IsReachable :
    (m : IoManager) (s : Scheduler) (t : TimerManager) (now a d : ℕ)
    → IsReachable m a d
    → total m.contexts < 2 ^ 64
    → (io_stopping m s t now).0 ≡ true
    → (total m.contexts ≡ 0)
      × ((io_stopping m s t now).1 ≡ 2 ^ 64 - 1)
      × (s.fibers ≡ [])
      × (s.active ≡ 0)
      × (s.stopped ≡ true)
unfolding io_stopping stopping
io_stopping-IsReachable m s t now a d r bound h =
    let (count, rest) = reachable-IsConserved m a d r in
    let none_pending : m.pending ≡ 0 = ground arith in
    (
      omega (arith, count, none_pending, bound),
      ground arith,
      empty s.fibers (ground arith),
      ground arith,
      ground arith,
    )
  where
    empty : (l : List FiberOrCb) → is_nil l ≡ true → l ≡ []
    empty [] h = refl
    empty (x ∷ l) h = cc
