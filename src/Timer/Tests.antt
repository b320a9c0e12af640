-- ===== src/Timer/Tests.antt =====
-- Runs of the timers, and their theorems at concrete inputs.
use net_ninja.Common.{
  ℕ, ◌+◌, ◌<◌, ◌≡◌, refl, ap, ◌≢◌, ◌↔◌, true, false, [], ◌∷◌, some, map, arith, if◌then◌else◌,
  fault,
}
use mathlib.Core.Path.{subst}
use net_ninja.Timer.{
  TimerManager, new_manager, put, insert, comparator, less, is_head, add_timer_locked, add_timer,
  cancel, get_timer_next, detect_clock_rollover, lower_bound, same_time, split_expired, rearm,
  list_expired_cb,
}
use net_ninja.Timer.Invariant.{IsValid}
use net_ninja.Timer.Expiry.{due}
use net_ninja.Timer.Rearm.{IsDistinct, fired}
use net_ninja.Timer.Fired.{gone, is_fired, list_expired_cb-IsFired}
use net_ninja.Timer.Steps.{Step, IsReachable, reachable-IsValid, get_timer_next-IsEarliest}

-- A recurring timer at 1, every 50 ms, and one at 2, once after 20 ms.
abbrev one_timer : TimerManager
one_timer = record {
  store =
      put (new_manager 1000).store 1
        (record { recurring = true; ms = 50; next = 1050; cb = some 7 });
  timers = 1 ∷ [];
  tickled = true;
  previous_time = 1000;
}

abbrev two_timers : TimerManager
two_timers = record {
  store = put one_timer.store 2 (record { recurring = false; ms = 20; next = 1020; cb = some 8 });
  timers = 2 ∷ 1 ∷ [];
  tickled = true;
  previous_time = 1000;
}

one_run : add_timer (new_manager 1000) 1000 1 50 (some 7) true ≡ (one_timer, true)
unfolding add_timer add_timer_locked insert is_head comparator less
one_run = refl

two_run : add_timer one_timer 1000 2 20 (some 8) false ≡ (two_timers, false)
unfolding add_timer add_timer_locked insert is_head comparator less
two_run = refl

expired_run : (list_expired_cb two_timers 1020 9).0 ≡ some 8 ∷ []
unfolding list_expired_cb detect_clock_rollover split_expired lower_bound same_time rearm less
expired_run = refl

two-IsReachable : IsReachable two_timers
two-IsReachable =
    IsReachable.step one_timer two_timers
      (IsReachable.step (new_manager 1000) one_timer (IsReachable.start 1000) (
        subst (Step (new_manager 1000)) (ap (λ r. r.0) one_run) (Step.added 1000 1 50 7 true refl)))
      (subst (Step one_timer) (ap (λ r. r.0) two_run) (Step.added 1000 2 20 8 false refl))

two-IsValid : IsValid two_timers
two-IsValid = (reachable-IsValid two_timers two-IsReachable).0

reachable-IsValid_example : IsValid two_timers × ((p : ℕ) → cancel two_timers p ≢ fault)
reachable-IsValid_example = reachable-IsValid two_timers two-IsReachable

list_expired_cb-IsFired_example :
    ((list_expired_cb two_timers 1020 9).0
      ≡ map (λ p. (two_timers.store p).cb) (gone two_timers 1020))
    × IsDistinct (gone two_timers 1020)
    × IsValid (list_expired_cb two_timers 1020 9).1
    × ((p : ℕ)
        → (list_expired_cb two_timers 1020 9).1.store p ≡ (
            if is_fired two_timers 1020 p
            then fired 1020 (two_timers.store p)
            else two_timers.store p))
list_expired_cb-IsFired_example = list_expired_cb-IsFired two_timers 1020 9 two-IsValid

get_timer_next-IsEarliest_example :
    ((due two_timers.store 1020 two_timers.timers ≡ [])
      ↔ (1020 < 1010 + (get_timer_next two_timers 1010).0))
    × ((get_timer_next two_timers 1010).1 ≡ record two_timers { tickled = false })
get_timer_next-IsEarliest_example =
    get_timer_next-IsEarliest two_timers 1010 1020 two-IsValid (λ e. cc) (omega arith)
