-- ===== src/Scheduler/Runs.antt =====
-- What a turn of the loop of `run` in src/scheduler.cpp runs for the task that it took.
use net_ninja.Common.{
  ℕ, ◌+◌, ◌%◌, ◌^◌, ◌<◌, ◌≡◌, refl, sym, ap, ◌∙◌, inl, inr, Bool, true, false, ◌||◌, List, Option,
  none, some, ◌==◌, arith, if◌then◌else◌, ok, Bool-cases, Option-cases, if_true, if_false,
}
use net_ninja.Scheduler.{
  State, FiberOrCb, Scheduler, Turn, is_exec, is_over, is_init, set_state, swap_in, reset_fiber,
  is_busy, one_less, callback_fiber, live_fiber, start_task,
}

pub set_state_self : (s : Scheduler) (f : ℕ) (x : State) → (set_state s f x).states f ≡ x
unfolding set_state
set_state_self s f x = rw (same f) refl
  where
    same : (n : ℕ) → (n == n) ≡ true
    same n = ground arith

-- The task's fiber is over, or it has none.
abbrev pub IsSpent : Scheduler → Option ℕ → Type 0
IsSpent s none = Unit {0}
IsSpent s (some f) = is_over (s.states f) ≡ true

-- The fiber that runs the callback: the one that is kept, or else a new one.
abbrev pub cb_runner : Scheduler → Option ℕ → ℕ
cb_runner s none = s.next
cb_runner s (some f) = f

-- What runs for the task that was taken, where `n` threads are active, and those `left` wait.
abbrev pub IsTaskRun :
    Scheduler → List FiberOrCb → ℕ → Option ℕ → FiberOrCb → Turn → Scheduler → Type 0
IsTaskRun s left n cb_fiber ft (Turn.of_fiber f) s' =
    (ft.fiber ≡ some f)
    × (is_over (s.states f) ≡ false)
    × (s'.states f ≡ State.exec)
    × (s'.fibers ≡ left)
    × (s'.active ≡ n + 1)
    × (s'.idle ≡ s.idle)
IsTaskRun s left n cb_fiber ft (Turn.of_cb f) s' =
    IsSpent s ft.fiber
    × ((c : ℕ) × (ft.cb ≡ some c))
    × (f ≡ cb_runner s cb_fiber)
    × (s'.states f ≡ State.exec)
    × (s'.fibers ≡ left)
    × (s'.active ≡ n + 1)
    × (s'.idle ≡ s.idle)
IsTaskRun s left n cb_fiber ft Turn.of_nothing s' =
    IsSpent s ft.fiber
    × (ft.cb ≡ none)
    × (s'.states ≡ s.states)
    × (s'.fibers ≡ left)
    × (s'.active ≡ n)
    × (s'.idle ≡ s.idle)
IsTaskRun s left n cb_fiber ft Turn.of_idle s' = ⊥
IsTaskRun s left n cb_fiber ft Turn.of_end s' = ⊥

-- The fiber that a thread keeps for callbacks, if it keeps one, has been reset.
abbrev pub IsKept : Scheduler → Option ℕ → Type 0
IsKept s none = Unit {0}
IsKept s (some f) = is_init (s.states f) ≡ true

pub swap_in-ok :
    (s : Scheduler) (f : ℕ)
    → is_exec (s.states f) ≡ false
    → swap_in s f ≡ ok (set_state s f State.exec)
unfolding swap_in
swap_in-ok s f h = rw h refl

callback_fiber-ok :
    (s : Scheduler) (cb_fiber : Option ℕ)
    → IsKept s cb_fiber
    → (f : ℕ) × (s' : Scheduler) × (callback_fiber s cb_fiber ≡ ok (f, s'))
      × (f ≡ cb_runner s cb_fiber)
      × (s'.fibers ≡ s.fibers)
      × (s'.states f ≡ State.init)
      × (s'.active ≡ s.active)
      × (s'.idle ≡ s.idle)
unfolding callback_fiber reset_fiber set_state
callback_fiber-ok s none h = (
  s.next,
  record (set_state s s.next State.init) { next = s.next + 1 },
  refl,
  refl,
  refl,
  set_state_self s s.next State.init,
  refl,
  refl,
)
callback_fiber-ok s (some f) h = (
  f,
  set_state s f State.init,
  rw (h, over (is_over (s.states f))) refl,
  refl,
  refl,
  set_state_self s f State.init,
  refl,
  refl,
)
  where
    over : (b : Bool) → (b || true) ≡ true
    over b = ground arith

live-not_exec :
    (s : Scheduler) (ft : FiberOrCb) (f : ℕ)
    → is_busy s.states ft ≡ false
    → live_fiber s ft ≡ some f
    → is_exec (s.states f) ≡ false
unfolding live_fiber is_busy
live-not_exec s ft f b h = go ft.fiber b h
  where
    go :
        (o : Option ℕ)
        → (elim o [ none ↦ false | some g ↦ is_exec (s.states g) ]) ≡ false
        → (elim o [ none ↦ none | some g ↦ if is_over (s.states g) then none else some g ]) ≡ some f
        → is_exec (s.states f) ≡ false
    go none b h = cc
    go (some g) b h = elim (Bool-cases (is_over (s.states g))) [
      | inl a ↦ let gone : none ≡ some f = sym (if_true a none (some g)) ∙ h in cc
      | inr a ↦ let same : some g ≡ some f = sym (if_false a none (some g)) ∙ h in cc
    ]

live-some :
    (s : Scheduler) (ft : FiberOrCb) (f : ℕ)
    → live_fiber s ft ≡ some f
    → (ft.fiber ≡ some f) × (is_over (s.states f) ≡ false)
unfolding live_fiber
live-some s ft f h = go ft.fiber h
  where
    go :
        (o : Option ℕ)
        → (elim o [ none ↦ none | some g ↦ if is_over (s.states g) then none else some g ]) ≡ some f
        → (o ≡ some f) × (is_over (s.states f) ≡ false)
    go none h = cc
    go (some g) h = elim (Bool-cases (is_over (s.states g))) [
      | inl a ↦ let gone : none ≡ some f = sym (if_true a none (some g)) ∙ h in cc
      | inr a ↦ let same : some g ≡ some f = sym (if_false a none (some g)) ∙ h in (same, cc)
    ]

live-none : (s : Scheduler) (ft : FiberOrCb) → live_fiber s ft ≡ none → IsSpent s ft.fiber
unfolding live_fiber
live-none s ft h = go ft.fiber h
  where
    go :
        (o : Option ℕ)
        → (elim o [ none ↦ none | some g ↦ if is_over (s.states g) then none else some g ]) ≡ none
        → IsSpent s o
    go none h = tt
    go (some g) h = elim (Bool-cases (is_over (s.states g))) [
      | inl a ↦ a
      | inr a ↦ let there : none ≡ some g = sym h ∙ if_false a none (some g) in cc
    ]

kept :
    (s : Scheduler) (left : List FiberOrCb) (n : ℕ) (o : Option ℕ)
    → IsKept s o
    → IsKept (record s { fibers = left; active = n }) o
kept s left n none k = tt
kept s left n (some f) k = k

cb_runner-taken :
    (s : Scheduler) (left : List FiberOrCb) (n : ℕ) (o : Option ℕ)
    → cb_runner (record s { fibers = left; active = n }) o ≡ cb_runner s o
cb_runner-taken s left n none = refl
cb_runner-taken s left n (some f) = refl

IsSpent-taken :
    (s : Scheduler) (left : List FiberOrCb) (n : ℕ) (o : Option ℕ)
    → IsSpent (record s { fibers = left; active = n }) o
    → IsSpent s o
IsSpent-taken s left n none h = tt
IsSpent-taken s left n (some f) h = h

-- The branches over a task that was taken, where one more thread was counted as active.
pub start_task-IsTaskRun :
    (s : Scheduler) (left : List FiberOrCb) (cb_fiber : Option ℕ) (ft : FiberOrCb)
    → s.active + 1 < 2 ^ 64
    → is_busy s.states ft ≡ false
    → IsKept s cb_fiber
    → let taken = record s { fibers = left; active = (s.active + 1) % 2 ^ 64 } in
      (turn : Turn) × (s' : Scheduler) × (start_task taken cb_fiber ft ≡ ok (turn, s'))
      × IsTaskRun s left s.active cb_fiber ft turn s'
unfolding start_task set_state
start_task-IsTaskRun s left cb_fiber ft bound b k =
    let n = (s.active + 1) % 2 ^ 64 in
    let taken = record s { fibers = left; active = n } in
    let one_more : n ≡ s.active + 1 = omega (arith, bound) in
    elim (Option-cases (live_fiber taken ft)) [
      | inl g ↦
          let spent = IsSpent-taken s left n ft.fiber (live-none taken ft g) in
          elim (Option-cases ft.cb) [
            | inl h ↦ (
              Turn.of_nothing,
              record taken { active = one_less taken.active },
              rw (start_task, g, h) refl,
              (spent, h, refl, refl, omega (arith, bound), refl),
            )
            | inr (c, h) ↦
                let (f, s', run, who, fs, is, a, i) =
                  callback_fiber-ok taken cb_fiber (kept s left n cb_fiber k) in
                let swapped = swap_in-ok s' f (ap is_exec is) in
                (
                  Turn.of_cb f,
                  set_state s' f State.exec,
                  rw (start_task, g, h, run, swapped) refl,
                  (
                    spent,
                    (c, h),
                    who ∙ cb_runner-taken s left n cb_fiber,
                    set_state_self s' f State.exec,
                    fs,
                    a ∙ one_more,
                    i,
                  ),
                )
          ]
      | inr (f, g) ↦
          let (here, live) = live-some taken ft f g in
          (
            Turn.of_fiber f,
            set_state taken f State.exec,
            rw (start_task, g, swap_in-ok taken f (live-not_exec taken ft f b g)) refl,
            (here, live, set_state_self taken f State.exec, refl, one_more, refl),
          )
    ]
