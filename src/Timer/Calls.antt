-- ===== src/Timer/Calls.antt =====
-- addTimer, cancel, refresh and reset of src/timer.cpp, on a valid set.
use net_ninja.Common.{
  if_true, if_false, ℕ, ◌+◌, ◌-◌, ◌^◌, ◌≡◌, refl, sym, ap, ◌∙◌, inl, inr, ◌≢◌, Bool, true, false,
  not, ◌&&◌, ◌||◌, Option, none, some, arith, ◌==◌, if◌then◌else◌, Bool-cases, Option-cases, ok,
}
use mathlib.Core.Path.{fun_ext}
use net_ninja.Timer.{
  Timer, TimerManager, is_live, put, u64, insert, contains, erase, add_timer_locked, add_timer,
  cancel, refresh, reset,
}
use net_ninja.Timer.Order.{Elem-contains, erase-put_same, contains-put_same}
use net_ninja.Timer.Invariant.{
  IsValid, eq_or_ne, put_self, put_ne, insert-IsTimerSet, drop-IsTimerSet, erase-IsWithout,
  fresh-IsWithout,
}

some_ne {ℓ} : {A : Type ℓ} (a : A) (o : Option A) → o ≡ some a → o ≢ none
some_ne a o e h = cc

elim_some {ℓ} :
    {A : Type ℓ} (o : Option ℕ) (c : ℕ)
    → o ≡ some c
    → (x y : A) → elim o [ none ↦ x | some d ↦ y ] ≡ y
elim_some o c e x y = rw e refl

elim_none {ℓ} :
    {A : Type ℓ} (o : Option ℕ) → o ≡ none → (x y : A) → elim o [ none ↦ x | some d ↦ y ] ≡ x
elim_none o e x y = rw e refl

in_set :
    (m : TimerManager) (p c : ℕ)
    → IsValid m
    → (m.store p).cb ≡ some c
    → contains m.store p m.timers ≡ true
in_set m p c v e =
    Elem-contains m.store p m.timers v.sorted (v.armed p (some_ne c (m.store p).cb e))

-- On a valid set, `addTimer` at the address of an object without a callback, such as a new one,
-- gives a valid set, and only writes that object: it has the callback and is due `ms` after `now`.
pub add_timer-IsValid :
    (m : TimerManager) (now p ms cb : ℕ) (recurring : Bool)
    → IsValid m
    → (m.store p).cb ≡ none
    → IsValid (add_timer m now p ms (some cb) recurring).0
      × ((add_timer m now p ms (some cb) recurring).0.store
          ≡ put m.store p
              (record { recurring = recurring; ms = ms; next = u64 (now + ms); cb = some cb }))
unfolding add_timer add_timer_locked
add_timer-IsValid m now p ms cb recurring v e = (
  insert-IsTimerSet m.store p _ m.timers (fresh-IsWithout m.store p m.timers v e)
      (some_ne cb _ refl),
  refl,
)

live_some : (t : Timer) (c : ℕ) → t.cb ≡ some c → is_live t ≡ true
live_some t c e = rw e refl

live_none : (t : Timer) → t.cb ≡ none → is_live t ≡ false
live_none t e = rw e refl

abbrev pub emptied : (ℕ → Timer) → ℕ → ℕ → Timer
emptied store p = put store p (record (store p) { cb = none })

cancel_live :
    (m : TimerManager) (p c : ℕ)
    → IsValid m
    → (m.store p).cb ≡ some c
    → cancel m p
      ≡ ok (true, record m { store = emptied m.store p; timers = erase m.store p m.timers })
unfolding cancel
cancel_live m p c v e =
    rw
      (
        cancel,
        e,
        contains-put_same m.store p (record (m.store p) { cb = none }) refl m.timers,
        erase-put_same m.store p (record (m.store p) { cb = none }) refl m.timers,
        Elem-contains m.store p m.timers v.sorted (v.armed p (some_ne c (m.store p).cb e)),
      )
      refl

emptied_self : (t : Timer) → t.cb ≡ none → t ≡ record t { cb = none }
emptied_self t e = ap (λ c. record t { cb = c }) e

emptied-none : (store : ℕ → Timer) (p : ℕ) → (store p).cb ≡ none → store ≡ emptied store p
emptied-none store p e = fun_ext (λ q. elim (eq_or_ne p q) [
  | inl same ↦
      ap store same
      ∙ emptied_self (store p) e
      ∙ sym (ap (emptied store p) same ∙ put_self store p _)
  | inr other ↦ sym (put_ne store p q _ other)
])

-- On a valid set, `cancel` never erases at the end of the set. It answers whether the timer had a
-- callback; it takes the callback from that object and writes no other, and the set stays valid.
pub cancel-IsValid :
    (m : TimerManager) (p : ℕ)
    → IsValid m
    → (m' : TimerManager) × (cancel m p ≡ ok (is_live (m.store p), m'))
      × IsValid m'
      × (m'.store ≡ emptied m.store p)
unfolding cancel
cancel-IsValid m p v = elim (Option-cases (m.store p).cb) [
  | inl e ↦ (m, rw (cancel, e) refl, v, emptied-none m.store p e)
  | inr (c, e) ↦ (
    record m { store = emptied m.store p; timers = erase m.store p m.timers },
    cancel_live m p c v e
        ∙ ap
            (λ b. ok (b, record m { store = emptied m.store p; timers = erase m.store p m.timers }))
            (sym (live_some (m.store p) c e)),
    drop-IsTimerSet m.store p _ _ (erase-IsWithout m.store p m.timers v) refl,
    refl,
  )
]

abbrev pub moved_to : Timer → ℕ → ℕ → Timer
moved_to t ms next = record t { ms = ms; next = next }

refresh_live :
    (m : TimerManager) (now p c : ℕ)
    → IsValid m
    → (m.store p).cb ≡ some c
    → refresh m now p ≡ (
      true,
      record m {
        store = put m.store p (moved_to (m.store p) (m.store p).ms (u64 (now + (m.store p).ms)));
        timers =
            insert
              (put m.store p (moved_to (m.store p) (m.store p).ms (u64 (now + (m.store p).ms))))
              p
              (erase m.store p m.timers);
      },
    )
unfolding refresh
refresh_live m now p c v e = elim_some (m.store p).cb c e _ _ ∙ if_true (in_set m p c v e) _ _

-- On a valid set, `refresh` answers whether the timer has a callback, and leaves a valid set. A timer
-- with a callback becomes due its own period after `now`; no other object is written.
pub refresh-IsValid :
    (m : TimerManager) (now p : ℕ)
    → IsValid m
    → IsValid (refresh m now p).1
      × ((refresh m now p).0 ≡ is_live (m.store p))
      × ((refresh m now p).1.store ≡ (
          if is_live (m.store p)
          then put m.store p (moved_to (m.store p) (m.store p).ms (u64 (now + (m.store p).ms)))
          else m.store))
unfolding refresh
refresh-IsValid m now p v = elim (Option-cases (m.store p).cb) [
  | inl e ↦ rw (refresh, e) (v, refl, refl)
  | inr (c, e) ↦ rw (refresh_live m now p c v e) (
    insert-IsTimerSet m.store p _ _ (erase-IsWithout m.store p m.timers v)
        (some_ne c (m.store p).cb e),
    sym (live_some (m.store p) c e),
    sym (if_true (live_some (m.store p) c e) _ _),
  )
]

abbrev pub restarted : TimerManager → ℕ → ℕ → ℕ → Bool → Timer
restarted m now p ms from_now =
    moved_to (m.store p) ms
      (u64 ((if from_now then now else u64 ((m.store p).next + 2 ^ 64 - (m.store p).ms)) + ms))

reset_live :
    (m : TimerManager) (now p ms c : ℕ) (from_now : Bool)
    → IsValid m
    → (m.store p).cb ≡ some c
    → (ms == (m.store p).ms && not from_now) ≡ false
    → reset m now p ms from_now ≡ (
        let (m', front) =
          add_timer_locked
            (record m {
              store = put m.store p (restarted m now p ms from_now);
              timers = erase m.store p m.timers;
            })
            p in
        (true, m', front))
unfolding reset
reset_live m now p ms c from_now v e h =
    if_false h _ _ ∙ elim_some (m.store p).cb c e _ _ ∙ if_true (in_set m p c v e) _ _

reset_same :
    (m : TimerManager) (now p ms : ℕ) (from_now : Bool)
    → (ms == (m.store p).ms && not from_now) ≡ true
    → reset m now p ms from_now ≡ (true, m, false)
unfolding reset
reset_same m now p ms from_now h = if_true h _ _

reset_empty :
    (m : TimerManager) (now p ms : ℕ) (from_now : Bool)
    → (m.store p).cb ≡ none
    → (ms == (m.store p).ms && not from_now) ≡ false
    → reset m now p ms from_now ≡ (false, m, false)
unfolding reset
reset_empty m now p ms from_now e h = if_false h _ _ ∙ elim_none (m.store p).cb e _ _

-- `reset` with the period that the timer has, and not from now.
abbrev pub is_same : TimerManager → ℕ → ℕ → Bool → Bool
is_same m p ms from_now = ms == (m.store p).ms && not from_now

-- On a valid set, `reset` leaves a valid set. It answers true when the timer has a callback, and also,
-- whether it has one or not, when nothing is to change: the period is the one that the timer has, and
-- does not count from now. Otherwise a timer with a callback takes the new period and becomes due
-- that period after `now`, or after the start of the running period; no other object is written.
pub reset-IsValid :
    (m : TimerManager) (now p ms : ℕ) (from_now : Bool)
    → IsValid m
    → IsValid (reset m now p ms from_now).1
      × ((reset m now p ms from_now).0 ≡ (is_same m p ms from_now || is_live (m.store p)))
      × ((reset m now p ms from_now).1.store ≡ (
          if is_live (m.store p) && not (is_same m p ms from_now)
          then put m.store p (restarted m now p ms from_now)
          else m.store))
unfolding add_timer_locked
reset-IsValid m now p ms from_now v = elim (Bool-cases (is_same m p ms from_now)) [
  | inl h ↦
      rw (reset_same m now p ms from_now h, h)
        (v, refl, sym (if_false (and_false (is_live (m.store p))) _ _))
  | inr h ↦ elim (Option-cases (m.store p).cb) [
    | inl e ↦ rw (reset_empty m now p ms from_now e h, h, live_none (m.store p) e) (v, refl, refl)
    | inr (c, e) ↦
        rw (reset_live m now p ms c from_now v e h, h, live_some (m.store p) c e)
          (
            insert-IsTimerSet m.store p _ _ (erase-IsWithout m.store p m.timers v)
                (some_ne c (m.store p).cb e),
            refl,
            refl,
          )
  ]
]
  where
    and_false : (b : Bool) → (b && false) ≡ false
    and_false b = ground arith
