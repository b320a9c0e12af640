-- ===== src/Timer/Fired.antt =====
-- listExpiredCb of src/timer.cpp: what it hands out, and what becomes of the timers.
use net_ninja.Common.{
  true-false, ℕ, ◌≤◌, ◌<◌, ◌≡◌, refl, sym, ap, ◌∙◌, inl, inr, ◌≢◌, Bool, true, false, not, ◌&&◌,
  ◌||◌, List, [], ◌∷◌, Option, none, map, arith, ltb, leb, if◌then◌else◌, Bool-cases, Option-cases,
  le→leb,
}
use net_ninja.Timer.{
  Timer, TimerManager, is_live, rearm, split_expired, detect_clock_rollover, list_expired_cb,
}
use net_ninja.Timer.Order.{IsSorted, Elem}
use net_ninja.Timer.Invariant.{IsValid}
use net_ninja.Timer.Expiry.{
  due, later, due_nil, later_nil, due-late, later-late, split_expired-eq, Elem-of-due,
  Elem-of-later, Elem-due_or_later, due-IsDue, later-IsLater-Elem, due-IsSorted, later-IsSorted,
}
use net_ninja.Timer.Rearm.{
  IsDistinct, IsDistinct-sorted, fired, IsWithoutAll, rearm_nil, rearm-IsTimerSet, rearm-cbs,
  rearm_ne, rearm-Elem,
}

abbrev pub is_rollover : TimerManager → ℕ → Bool
is_rollover m now = (detect_clock_rollover m now).0

-- The timers that a call hands out: all on a rollover, or those that are due.
abbrev pub gone : TimerManager → ℕ → List ℕ
gone m now = if is_rollover m now then m.timers else due m.store now m.timers

abbrev kept : TimerManager → ℕ → List ℕ
kept m now = if is_rollover m now then [] else later m.store now m.timers

split-gone :
    (m : TimerManager) (now q : ℕ)
    → IsValid m
    → split_expired m.store (is_rollover m now) now q m.timers ≡ (gone m now, kept m now)
unfolding split_expired
split-gone m now q v = elim (Bool-cases (is_rollover m now)) [
  | inl h ↦ rw h refl
  | inr h ↦ rw h (split_expired-eq m.store now q m.timers v.sorted)
]

gone-IsWithoutAll :
    (m : TimerManager) (now : ℕ) → IsValid m → IsWithoutAll (gone m now) m.store (kept m now)
gone-IsWithoutAll m now v = elim (Bool-cases (is_rollover m now)) [
  | inl h ↦ rw h (record {
    sorted = tt;
    distinct = IsDistinct-sorted m.store m.timers v.sorted;
    out = λ p e i. i;
    waiting = v.live;
    live = λ p e. absurd e;
    armed = λ p c. inl (v.armed p c);
  })
  | inr h ↦ rw h (record {
    sorted = later-IsSorted m.store now m.timers v.sorted;
    distinct = IsDistinct-sorted m.store _ (due-IsSorted m.store now m.timers v.sorted);
    out = λ p e i.
        not_both p (due-IsDue m.store now p m.timers e)
          (later-IsLater-Elem m.store now p m.timers i);
    waiting = λ p e. v.live p (Elem-of-due m.store now p m.timers e);
    live = λ p e. v.live p (Elem-of-later m.store now p m.timers e);
    armed = λ p c. Elem-due_or_later m.store now p m.timers (v.armed p c);
  })
]
  where
    not_both : (p : ℕ) → (m.store p).next ≤ now → now < (m.store p).next → ⊥
    not_both p h k = omega arith

abbrev manager : (ℕ → Timer) → List ℕ → Bool → ℕ → TimerManager
manager store timers tickled previous_time = record {
  store = store;
  timers = timers;
  tickled = tickled;
  previous_time = previous_time;
}

-- The early return is taken with a first timer that is not due.
abbrev is_early : Bool → ℕ → ℕ → Bool
is_early rollover now next = not rollover && ltb now next

is_early_iff : (b : Bool) (now next : ℕ) → is_early b now next ≡ true → (b ≡ false) × (now < next)
is_early_iff b now next h = ground arith

detect-store :
    (m : TimerManager) (now : ℕ)
    → ((detect_clock_rollover m now).1.store ≡ m.store)
      × ((detect_clock_rollover m now).1.timers ≡ m.timers)
unfolding detect_clock_rollover
detect-store m now = (refl, refl)

early-gone :
    (m : TimerManager) (now p : ℕ) (l : List ℕ)
    → IsSorted m.store (p ∷ l)
    → m.timers ≡ p ∷ l
    → is_early (is_rollover m now) now (m.store p).next ≡ true
    → (gone m now ≡ []) × (kept m now ≡ p ∷ l)
early-gone m now p l s e h =
    let a = is_early_iff (is_rollover m now) now (m.store p).next h in
    rw (a.0, e) (due-late m.store now p l s a.1, later-late m.store now p l s a.1)

empty-gone : (m : TimerManager) (now : ℕ) → m.timers ≡ [] → (gone m now ≡ []) × (kept m now ≡ [])
empty-gone m now e = elim (Bool-cases (is_rollover m now)) [
  | inl h ↦ rw h (e, refl)
  | inr h ↦ rw (h, e) (due_nil m.store now, later_nil m.store now)
]

-- `listExpiredCb` without its early returns.
abbrev IsAll : TimerManager → ℕ → List (Option ℕ) × TimerManager → Type 0
IsAll m now r =
    (r.0 ≡ (rearm m.store now (gone m now) (kept m now)).0)
    × (r.1.store ≡ (rearm m.store now (gone m now) (kept m now)).1)
    × (r.1.timers ≡ (rearm m.store now (gone m now) (kept m now)).2)

module _ (m : TimerManager) (now q : ℕ) where
  list_empty : m.timers ≡ [] → list_expired_cb m now q ≡ ([], m)
  unfolding list_expired_cb
  list_empty e = rw e refl

  list_early :
      (p : ℕ) (l : List ℕ)
      → m.timers ≡ p ∷ l
      → is_early (is_rollover m now) now (m.store p).next ≡ true
      → list_expired_cb m now q ≡ ([], (detect_clock_rollover m now).1)
  unfolding list_expired_cb detect_clock_rollover
  list_early p l e h = rw (e, h) refl

  list_late :
      (p : ℕ) (l : List ℕ)
      → m.timers ≡ p ∷ l
      → is_early (is_rollover m now) now (m.store p).next ≡ false
      → list_expired_cb m now q ≡ (
          let (expired, rest) = split_expired m.store (is_rollover m now) now q m.timers in
          let (cbs, store', timers') = rearm m.store now expired rest in
          (cbs, record (detect_clock_rollover m now).1 { store = store'; timers = timers' }))
  unfolding list_expired_cb detect_clock_rollover
  list_late p l e h = rw (e, h) refl

  rearm_empty :
      (m' : TimerManager)
      → m'.store ≡ m.store
      → m'.timers ≡ m.timers
      → gone m now ≡ []
      → kept m now ≡ m.timers
      → IsAll m now ([], m')
  rearm_empty m' s t g k = rw (g, k) (rw (rearm_nil now m.store m.timers) (refl, s, t))

  list-IsAll : IsValid m → IsAll m now (list_expired_cb m now q)
  list-IsAll v = go m.timers refl
    where
      go : (l : List ℕ) → m.timers ≡ l → IsAll m now (list_expired_cb m now q)
      go [] e =
          rw (list_empty e)
            (rearm_empty m refl refl (empty-gone m now e).0 ((empty-gone m now e).1 ∙ sym e))
      go (p ∷ l) e = elim (Bool-cases (is_early (is_rollover m now) now (m.store p).next)) [
        | inl h ↦
            let g = early-gone m now p l (rw e at v.sorted) e h in
            rw (list_early p l e h) (
              rearm_empty (detect_clock_rollover m now).1 (detect-store m now).0
                (detect-store m now).1 g.0 (g.1 ∙ sym e))
        | inr h ↦
            rw
              (
                list_late p l e h,
                ap (λ t. t.0) (split-gone m now q v),
                ap (λ t. t.1) (split-gone m now q v),
              )
              (refl, refl, refl)
      ]

module _ (m : TimerManager) (now : ℕ) where
  -- Whether a call hands the timer out.
  abbrev pub is_fired : ℕ → Bool
  is_fired p = is_live (m.store p) && (is_rollover m now || leb (m.store p).next now)

  live_ne : (t : Timer) → is_live t ≡ true → t.cb ≢ none
  live_ne t h e = true-false h (ap (λ c. is_live (record t { cb = c })) e)

  ne_live : (t : Timer) → t.cb ≢ none → is_live t ≡ true
  ne_live t h = elim (Option-cases t.cb) [ inl e ↦ absurd (h e) | inr (c, e) ↦ rw e refl ]

  fired_live : (b c d : Bool) → (b && (c || d)) ≡ true → b ≡ true
  fired_live b c d h = ground arith

  fired_due : (b d : Bool) → (b && (false || d)) ≡ true → d ≡ true
  fired_due b d h = ground arith

  Elem-fired : (p : ℕ) → IsValid m → is_fired p ≡ true → Elem p (gone m now)
  Elem-fired p v h =
      let there = v.armed p (
        live_ne (m.store p)
          (fired_live (is_live (m.store p)) (is_rollover m now) (leb (m.store p).next now) h)) in
      elim (Bool-cases (is_rollover m now)) [
        | inl r ↦ rw r there
        | inr r ↦ rw r (elim (Elem-due_or_later m.store now p m.timers there) [
          | inl e ↦ e
          | inr e ↦ absurd (
              not_late (m.store p).next
                (fired_due (is_live (m.store p)) (leb (m.store p).next now) (rw r at h))
                (later-IsLater-Elem m.store now p m.timers e))
        ])
      ]
    where
      not_late : (n : ℕ) → leb n now ≡ true → now < n → ⊥
      not_late n a b = ground arith

  fired-Elem : (p : ℕ) → IsValid m → Elem p (gone m now) → is_fired p ≡ true
  fired-Elem p v e = elim (Bool-cases (is_rollover m now)) [
    | inl r ↦ rw (r, ne_live (m.store p) (v.live p (rw r at e))) refl
    | inr r ↦
        let there = rw r at e in
        rw
          (
            r,
            ne_live (m.store p) (v.live p (Elem-of-due m.store now p m.timers there)),
            le→leb (m.store p).next now (due-IsDue m.store now p m.timers there),
          )
          refl
  ]

-- On a valid set, `listExpiredCb` hands out the callbacks of the timers that are due, each once and
-- in the order of the set, or of all timers when the clock was turned back by more than an hour.
-- Those timers, if recurring, are due again their period after `now`; the others lose their
-- callback. No other timer changes, and the set stays valid, whatever the address of the temporary
-- timer is.
pub list_expired_cb-IsFired :
    (m : TimerManager) (now q : ℕ)
    → IsValid m
    → ((list_expired_cb m now q).0 ≡ map (λ p. (m.store p).cb) (gone m now))
      × IsDistinct (gone m now)
      × IsValid (list_expired_cb m now q).1
      × ((p : ℕ)
          → (list_expired_cb m now q).1.store p
            ≡ (if is_fired m now p then fired now (m.store p) else m.store p))
list_expired_cb-IsFired m now q v =
    let a = list-IsAll m now q v in
    let w = gone-IsWithoutAll m now v in
    (
      a.0 ∙ rearm-cbs now m.store (gone m now) (kept m now) w.distinct,
      w.distinct,
      rw (a.1, a.2) (rearm-IsTimerSet now m.store (gone m now) (kept m now) w),
      λ p. elim (Bool-cases (is_fired m now p)) [
        | inl h ↦
            rw (a.1, h)
              (rearm-Elem now m.store (gone m now) (kept m now) p w.distinct
                (Elem-fired m now p v h))
        | inr h ↦
            rw (a.1, h)
              (rearm_ne now m.store (gone m now) (kept m now) p
                (λ e. true-false (fired-Elem m now p v e) h))
      ],
    )
