-- ===== src/Timer/Steps.antt =====
-- The calls of src/timer.cpp one after another, and what getTimerNext promises the caller that sleeps.
use net_ninja.Common.{
  ℕ, ◌+◌, ◌-◌, ◌^◌, ◌≤◌, ◌<◌, ◌≡◌, refl, sym, ap, ◌∙◌, ◌≢◌, ◌↔◌, Bool, true, false, List, [], ◌∷◌,
  none, some, arith, Bool-cases, ◌⊎◌, inl, inr, leb, Outcome, ok, out_of_range, fault, aborted,
}
use net_ninja.Timer.{
  TimerManager, new_manager, add_timer, cancel, refresh, reset, get_timer_next, list_expired_cb,
}
use net_ninja.Timer.Invariant.{IsValid}
use net_ninja.Timer.Calls.{add_timer-IsValid, cancel-IsValid, refresh-IsValid, reset-IsValid}
use net_ninja.Timer.Expiry.{due, due-early, due-late}
use net_ninja.Timer.Fired.{list_expired_cb-IsFired}

lt_or_le : (a b : ℕ) → (a < b) ⊎ (b ≤ a)
lt_or_le a b = ground arith

-- One call, at any time. A new timer has a callback, which is no empty std::function, and takes an
-- address whose object has no callback, such as a free one.
pub data Step (m : TimerManager) : TimerManager → Type 0 where
  added :
      (now p ms cb : ℕ) (recurring : Bool)
      → (m.store p).cb ≡ none
      → Step m (add_timer m now p ms (some cb) recurring).0
  cancelled : (p : ℕ) (live : Bool) (m' : TimerManager) → cancel m p ≡ ok (live, m') → Step m m'
  refreshed : (now p : ℕ) → Step m (refresh m now p).1
  restarted : (now p ms : ℕ) (from_now : Bool) → Step m (reset m now p ms from_now).1
  asked : (now : ℕ) → Step m (get_timer_next m now).1
  fired : (now q : ℕ) → Step m (list_expired_cb m now q).1

pub data IsReachable : TimerManager → Type 0 where
  start : (now : ℕ) → IsReachable (new_manager now)
  step : (m m' : TimerManager) → IsReachable m → Step m m' → IsReachable m'

new_manager-IsValid : (now : ℕ) → IsValid (new_manager now)
new_manager-IsValid now = record {
  sorted = tt;
  live = λ p e. absurd e;
  armed = λ p c. absurd (c refl);
}

module _ (m : TimerManager) (now : ℕ) where
  timer_next-nil : m.timers ≡ [] → get_timer_next m now ≡ (2 ^ 64 - 1, record m { tickled = false })
  unfolding get_timer_next
  timer_next-nil e = rw e refl

  timer_next-cons :
      (p : ℕ) (l : List ℕ)
      → m.timers ≡ p ∷ l
      → get_timer_next m now ≡ ((m.store p).next - now, record m { tickled = false })
  unfolding get_timer_next
  timer_next-cons p l e = elim (Bool-cases (leb (m.store p).next now)) [
    | inl h ↦ rw (e, h, past (m.store p).next h) refl
    | inr h ↦ rw (e, h) refl
  ]
    where
      past : (n : ℕ) → leb n now ≡ true → n - now ≡ 0
      past n h = ground arith

  get_timer_next-state : (get_timer_next m now).1 ≡ record m { tickled = false }
  get_timer_next-state = go m.timers refl
    where
      go : (l : List ℕ) → m.timers ≡ l → (get_timer_next m now).1 ≡ record m { tickled = false }
      go [] e = ap (λ r. r.1) (timer_next-nil e)
      go (p ∷ l) e = ap (λ r. r.1) (timer_next-cons p l e)

abbrev after : TimerManager → Outcome (Bool × TimerManager) → TimerManager
after m (ok r) = r.1
after m out_of_range = m
after m fault = m
after m aborted = m

not_fault : (m : TimerManager) → IsValid m → (p : ℕ) → cancel m p ≢ fault
not_fault m v p h = let e = (cancel-IsValid m p v).1 in cc

Step-IsValid : (m m' : TimerManager) → IsValid m → Step m m' → IsValid m'
Step-IsValid m m' v (Step.added now p ms cb recurring free) =
    (add_timer-IsValid m now p ms cb recurring v free).0
Step-IsValid m m' v (Step.cancelled p live n e) =
    let c = cancel-IsValid m p v in rw (ap (after m) (sym e ∙ c.1)) c.2
Step-IsValid m m' v (Step.refreshed now p) = (refresh-IsValid m now p v).0
Step-IsValid m m' v (Step.restarted now p ms from_now) = (reset-IsValid m now p ms from_now v).0
Step-IsValid m m' v (Step.asked now) = rw (get_timer_next-state m now) v
Step-IsValid m m' v (Step.fired now q) = (list_expired_cb-IsFired m now q v).2

-- After any calls in any order, at any times of the clock, where addTimer is given a callback that is
-- not empty and an object without one, the set holds exactly the timers that have a callback, in the
-- order of the comparator; and cancelling any timer is defined.
pub reachable-IsValid :
    (m : TimerManager) → IsReachable m → IsValid m × ((p : ℕ) → cancel m p ≢ fault)
reachable-IsValid m (IsReachable.start now) =
    (new_manager-IsValid now, not_fault (new_manager now) (new_manager-IsValid now))
reachable-IsValid m (IsReachable.step n m' r s) =
    let v = Step-IsValid n m' (reachable-IsValid n r).0 s in (v, not_fault m' v)

-- Of a valid set that is not empty, `getTimerNext` gives the time until a timer is due: after less
-- time than that no timer is due, and after that time or more one is. It clears the tickle and
-- changes no timer.
pub get_timer_next-IsEarliest :
    (m : TimerManager) (now t : ℕ)
    → IsValid m
    → m.timers ≢ []
    → now ≤ t
    → ((due m.store t m.timers ≡ []) ↔ (t < now + (get_timer_next m now).0))
      × ((get_timer_next m now).1 ≡ record m { tickled = false })
get_timer_next-IsEarliest m now t v h k = (go m.timers refl, get_timer_next-state m now)
  where
    go :
        (l : List ℕ)
        → m.timers ≡ l
        → (due m.store t m.timers ≡ []) ↔ (t < now + (get_timer_next m now).0)
    go [] e = absurd (h e)
    go (p ∷ l) e =
        rw (timer_next-cons m now p l e, e)
          (
            (λ n. elim (lt_or_le t (m.store p).next) [
              | inl a ↦ omega arith
              | inr a ↦ absurd (due-early m.store t p l a n)
            ]),
            λ a. due-late m.store t p l (rw e at v.sorted) (omega arith),
          )
