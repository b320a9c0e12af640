-- ===== src/Timer.antt =====
-- src/timer.h and src/timer.cpp: timers in a std::set, ordered by their time and then their address.
-- A timer object is a record in a store that maps addresses to objects; the set is the ordered list
-- of the addresses in it. The clock, `GetCurrentMS`, is the argument `now`. A callback is a number,
-- and an empty std::function is `none`. Each call is one step. All but listExpiredCb, which takes the
-- lock twice and reads the first timer without it, hold the lock throughout.
pub mod Order
pub mod Invariant
pub mod Calls
pub mod Expiry
pub mod Rearm
pub mod Fired
pub mod Steps
mod Tests
use net_ninja.Common.{
  ℕ, ◌+◌, ◌-◌, ◌*◌, ◌%◌, ◌^◌, Bool, true, false, not, ◌&&◌, List, [], ◌∷◌, ◌++◌, Option, none, some,
  ltb, leb, ◌==◌, if◌then◌else◌, Outcome, ok, fault,
}

pub record Timer : Type 0 where
  pub recurring : Bool
  pub ms : ℕ
  pub next : ℕ
  pub cb : Option ℕ

pub record TimerManager : Type 0 where
  pub store : ℕ → Timer
  pub timers : List ℕ
  pub tickled : Bool
  pub previous_time : ℕ

-- `TimerManager()`; an address without an object has no callback.
abbrev pub new_manager : ℕ → TimerManager
new_manager now = record {
  store = λ p. record { recurring = false; ms = 0; next = 0; cb = none };
  timers = [];
  tickled = false;
  previous_time = now;
}

abbrev pub u64 : ℕ → ℕ
u64 n = n % 2 ^ 64

-- `if(m_cb)`
abbrev pub is_live : Timer → Bool
is_live t = elim t.cb [ none ↦ false | some c ↦ true ]

abbrev pub put : (ℕ → Timer) → ℕ → Timer → ℕ → Timer
put store p t q = if p == q then t else store q

-- `Comparator` on two objects that are there: a time and an address each.
unfoldable pub less : ℕ → ℕ → ℕ → ℕ → Bool
less next_p p next_q q =
    if ltb next_p next_q then true else if ltb next_q next_p then false else ltb p q

-- `Comparator` with the null pointers it also orders.
unfoldable pub comparator : (ℕ → Timer) → Option ℕ → Option ℕ → Bool
unfolding less
comparator store none none = false
comparator store none (some q) = true
comparator store (some p) none = false
comparator store (some p) (some q) = less (store p).next p (store q).next q

abbrev pub before : (ℕ → Timer) → ℕ → ℕ → Bool
before store p q = comparator store (some p) (some q)

-- std::set under the comparator: `insert`, `find` and `erase`.
unfoldable pub insert : (ℕ → Timer) → ℕ → List ℕ → List ℕ
insert store p [] = p ∷ []
insert store p (q ∷ l) =
    if before store q p then q ∷ insert store p l else if before store p q then p ∷ q ∷ l else q ∷ l

unfoldable pub contains : (ℕ → Timer) → ℕ → List ℕ → Bool
contains store p [] = false
contains store p (q ∷ l) =
    if before store q p then contains store p l else if before store p q then false else true

unfoldable pub erase : (ℕ → Timer) → ℕ → List ℕ → List ℕ
erase store p [] = []
erase store p (q ∷ l) =
    if before store q p then q ∷ erase store p l else if before store p q then q ∷ l else l

unfoldable pub is_head : ℕ → List ℕ → Bool
is_head p [] = false
is_head p (q ∷ l) = p == q

-- `addTimer(val, lock)`: the new state, and whether `onTimerInsertedAtFront` is called.
unfoldable pub add_timer_locked : TimerManager → ℕ → TimerManager × Bool
add_timer_locked m p =
    let timers' = insert m.store p m.timers in
    let at_front = is_head p timers' && not m.tickled in
    (record m { timers = timers'; tickled = if at_front then true else m.tickled }, at_front)

-- `addTimer(ms, cb, recurring)`, with the new object at the address `p`.
unfoldable pub add_timer : TimerManager → ℕ → ℕ → ℕ → Option ℕ → Bool → TimerManager × Bool
add_timer m now p ms cb recurring =
    let t : Timer = record { recurring = recurring; ms = ms; next = u64 (now + ms); cb = cb } in
    add_timer_locked (record m { store = put m.store p t }) p

-- `Timer::cancel`: erasing at `end()`, where the timer is not in the set, is undefined.
unfoldable pub cancel : TimerManager → ℕ → Outcome (Bool × TimerManager)
cancel m p = elim (m.store p).cb [
  | none ↦ ok (false, m)
  | some c ↦
      let m' = record m { store = put m.store p (record (m.store p) { cb = none }) } in
      if contains m'.store p m'.timers
      then ok (true, record m' { timers = erase m'.store p m'.timers })
      else fault
]

unfoldable pub refresh : TimerManager → ℕ → ℕ → Bool × TimerManager
refresh m now p = elim (m.store p).cb [
  | none ↦ (false, m)
  | some c ↦
      let rest = erase m.store p m.timers in
      let store' = put m.store p (record (m.store p) { next = u64 (now + (m.store p).ms) }) in
      if contains m.store p m.timers
      then (true, record m { store = store'; timers = insert store' p rest })
      else (false, m)
]

-- `Timer::reset`: the answer, the new state, and whether `onTimerInsertedAtFront` is called.
unfoldable pub reset : TimerManager → ℕ → ℕ → ℕ → Bool → Bool × TimerManager × Bool
reset m now p ms from_now =
    let t = m.store p in
    let start = if from_now then now else u64 (t.next + 2 ^ 64 - t.ms) in
    let rest = erase m.store p m.timers in
    let store' = put m.store p (record t { ms = ms; next = u64 (start + ms) }) in
    let (m', front) = add_timer_locked (record m { store = store'; timers = rest }) p in
    let reset_live = if contains m.store p m.timers then (true, m', front) else (false, m, false) in
    if ms == t.ms && not from_now
    then (true, m, false)
    else elim t.cb [ none ↦ (false, m, false) | some c ↦ reset_live ]

unfoldable pub get_timer_next : TimerManager → ℕ → ℕ × TimerManager
get_timer_next m now =
    let m' = record m { tickled = false } in
    elim m.timers [
      | [] ↦ (2 ^ 64 - 1, m')
      | p ∷ l ↦ (if leb (m.store p).next now then (0, m') else ((m.store p).next - now, m'))
    ]

unfoldable pub has_timer : TimerManager → Bool
has_timer m = elim m.timers [ [] ↦ false | p ∷ l ↦ true ]

-- The subtraction of an hour is one of uint64_t.
unfoldable pub detect_clock_rollover : TimerManager → ℕ → Bool × TimerManager
detect_clock_rollover m now = (
  ltb now m.previous_time && ltb now (u64 (m.previous_time + 2 ^ 64 - 60 * 60 * 1000)),
  record m { previous_time = now },
)

-- `lower_bound(now_timer)`: what comes before a timer of the time `now` at the address `q`.
unfoldable pub lower_bound : (ℕ → Timer) → ℕ → ℕ → List ℕ → List ℕ × List ℕ
lower_bound store now q [] = ([], [])
lower_bound store now q (p ∷ l) =
    let (front, rest) = lower_bound store now q l in
    if less (store p).next p now q then (p ∷ front, rest) else ([], p ∷ l)

-- `while(it != end && (*it)->m_next == now_ms) ++it`
unfoldable pub same_time : (ℕ → Timer) → ℕ → List ℕ → List ℕ × List ℕ
same_time store now [] = ([], [])
same_time store now (p ∷ l) =
    let (front, rest) = same_time store now l in
    if (store p).next == now then (p ∷ front, rest) else ([], p ∷ l)

-- The expired timers and the others.
unfoldable pub split_expired : (ℕ → Timer) → Bool → ℕ → ℕ → List ℕ → List ℕ × List ℕ
split_expired store true now q l = (l, [])
split_expired store false now q l =
    let (front, rest) = lower_bound store now q l in
    let (more, rest') = same_time store now rest in (front ++ more, rest')

-- The last loop: the callbacks, and each timer set again or emptied.
unfoldable pub rearm : (ℕ → Timer) → ℕ → List ℕ → List ℕ → List (Option ℕ) × (ℕ → Timer) × List ℕ
rearm store now [] timers = ([], store, timers)
rearm store now (p ∷ expired) timers =
    let t = store p in
    let store' =
      if t.recurring
      then put store p (record t { next = u64 (now + t.ms) })
      else put store p (record t { cb = none }) in
    let timers' = if t.recurring then insert store' p timers else timers in
    let (cbs, store'', timers'') = rearm store' now expired timers' in
    (t.cb ∷ cbs, store'', timers'')

-- `listExpiredCb`; `q` is the address of the temporary `now_timer`.
unfoldable pub list_expired_cb : TimerManager → ℕ → ℕ → List (Option ℕ) × TimerManager
list_expired_cb m now q = elim m.timers [
  | [] ↦ ([], m)
  | p ∷ l ↦
      let (rollover, m') = detect_clock_rollover m now in
      let (expired, rest) = split_expired m.store rollover now q (p ∷ l) in
      let (cbs, store', timers') = rearm m.store now expired rest in
      if not rollover && ltb now (m.store p).next
      then ([], m')
      else (cbs, record m' { store = store'; timers = timers' })
]
