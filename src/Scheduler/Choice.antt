-- ===== src/Scheduler/Choice.antt =====
-- Which task a thread takes from the queue of src/scheduler.cpp.
use net_ninja.Common.{
  ℕ, ◌≡◌, refl, sym, ap, ◌∙◌, ◌⊎◌, inl, inr, Bool, true, false, not, ◌&&◌, ◌||◌, List, [], ◌∷◌,
  ◌++◌, Option, none, some, arith, append-nil, append_assoc, if◌then◌else◌, ok, All, Bool-cases,
}
use net_ninja.Scheduler.{
  State, FiberOrCb, Scheduler, is_some, is_nil, is_elsewhere, is_busy, choose, schedule_no_lock,
  schedule_range,
}

-- A task has a fiber or a callback.
abbrev pub is_task : FiberOrCb → Bool
is_task ft = is_some ft.fiber || is_some ft.cb

abbrev pub IsQueue : List FiberOrCb → Type 0
IsQueue l = All (λ ft. is_task ft ≡ true) l

-- The thread leaves the task: it is for another one, or its fiber is running.
abbrev pub is_skipped : ℕ → (ℕ → State) → FiberOrCb → Bool
is_skipped thread states ft = is_elsewhere ft thread || is_busy states ft

abbrev pub all_skipped : ℕ → (ℕ → State) → List FiberOrCb → Bool
all_skipped thread states [] = true
all_skipped thread states (ft ∷ l) = is_skipped thread states ft && all_skipped thread states l

abbrev pub some_elsewhere : ℕ → List FiberOrCb → Bool
some_elsewhere thread [] = false
some_elsewhere thread (ft ∷ l) = is_elsewhere ft thread || some_elsewhere thread l

-- No task is for the thread, and the queue stays.
abbrev pub IsPassed : ℕ → (ℕ → State) → List FiberOrCb → Type 0
IsPassed thread states l =
    (choose thread states l ≡ ok (none, some_elsewhere thread l, l))
    × (all_skipped thread states l ≡ true)

-- The first task that is not skipped is taken, and the others keep their order.
abbrev pub IsTaken : ℕ → (ℕ → State) → List FiberOrCb → Type 0
IsTaken thread states l =
    (pre : List FiberOrCb) × (ft : FiberOrCb) × (post : List FiberOrCb) × (l ≡ pre ++ ft ∷ post)
    × (all_skipped thread states pre ≡ true)
    × (is_skipped thread states ft ≡ false)
    × (is_task ft ≡ true)
    × (choose thread states l
        ≡ ok (some ft, some_elsewhere thread pre || not (is_nil post), pre ++ post))

choose_skip :
    (thread : ℕ) (states : ℕ → State) (ft : FiberOrCb) (l left : List FiberOrCb)
    (chosen : Option FiberOrCb) (tickle_me : Bool)
    → is_task ft ≡ true
    → is_skipped thread states ft ≡ true
    → choose thread states l ≡ ok (chosen, tickle_me, left)
    → choose thread states (ft ∷ l) ≡ ok (chosen, is_elsewhere ft thread || tickle_me, ft ∷ left)
unfolding choose
choose_skip thread states ft l left chosen tickle_me t h c =
    elim (Bool-cases (is_elsewhere ft thread)) [
      | inl e ↦ rw (e, c) refl
      | inr e ↦
          let busy : is_busy states ft ≡ true = sym (ap (λ b. b || is_busy states ft) e) ∙ h in
          rw (e, t, busy, c) refl
    ]

pub choose_here :
    (thread : ℕ) (states : ℕ → State) (ft : FiberOrCb) (l : List FiberOrCb)
    → is_task ft ≡ true
    → is_skipped thread states ft ≡ false
    → choose thread states (ft ∷ l) ≡ ok (some ft, not (is_nil l), l)
unfolding choose
choose_here thread states ft l t h =
    let (a, b) = neither (is_elsewhere ft thread) (is_busy states ft) h in rw (a, t, b) refl
  where
    neither : (a b : Bool) → (a || b) ≡ false → (a ≡ false) × (b ≡ false)
    neither a b h = ground arith

-- The loop over a queue without empty tasks does not abort. It takes the first task that is for this
-- thread and whose fiber is not running, and leaves the others in order; if there is none, it leaves
-- the queue. It tickles when it passed a task of another thread, or a task stands behind the taken one.
pub choose-IsTaken :
    (thread : ℕ) (states : ℕ → State) (l : List FiberOrCb)
    → IsQueue l
    → IsPassed thread states l ⊎ IsTaken thread states l
unfolding choose
choose-IsTaken thread states [] q = inl (refl, refl)
choose-IsTaken thread states (ft ∷ l) q = elim (Bool-cases (is_skipped thread states ft)) [
  | inl h ↦ elim (choose-IsTaken thread states l q.1) [
    | inl (c, s) ↦
        inl (choose_skip thread states ft l l none (some_elsewhere thread l) q.0 h c, ground arith)
    | inr (pre, x, post, e, s, n, t, c) ↦ inr (
      ft ∷ pre,
      x,
      post,
      ap (λ t. ft ∷ t) e,
      ground arith,
      n,
      t,
      choose_skip thread states ft l (pre ++ post) (some x)
            (some_elsewhere thread pre || not (is_nil post)) q.0 h c
          ∙ ap (λ b. ok (some x, b, ft ∷ (pre ++ post)))
              (or_assoc (is_elsewhere ft thread) (some_elsewhere thread pre) (not (is_nil post))),
    )
  ]
  | inr h ↦ inr ([], ft, l, refl, refl, h, q.0, choose_here thread states ft l q.0 h)
]
  where
    or_assoc : (a b c : Bool) → (a || (b || c)) ≡ ((a || b) || c)
    or_assoc a b c = ground arith

schedule_no_lock-IsQueue :
    (s : Scheduler) (ft : FiberOrCb) → IsQueue s.fibers → IsQueue (schedule_no_lock s ft).1.fibers
unfolding schedule_no_lock
schedule_no_lock-IsQueue s ft q = elim (Bool-cases (is_task ft)) [
  | inl h ↦ rw h (append-IsQueue s.fibers q h)
  | inr h ↦ rw h q
]
  where
    append-IsQueue : (l : List FiberOrCb) → IsQueue l → is_task ft ≡ true → IsQueue (l ++ ft ∷ [])
    append-IsQueue [] q h = (h, tt)
    append-IsQueue (x ∷ l) q h = (q.0, append-IsQueue l q.1 h)

abbrev pub tasks : List FiberOrCb → List FiberOrCb
tasks [] = []
tasks (ft ∷ l) = if is_task ft then ft ∷ tasks l else tasks l

fibers-schedule :
    (s : Scheduler) (ft : FiberOrCb) (l : List FiberOrCb)
    → (schedule_no_lock s ft).1.fibers ++ tasks l ≡ s.fibers ++ tasks (ft ∷ l)
unfolding schedule_no_lock
fibers-schedule s ft l = elim (Bool-cases (is_task ft)) [
  | inl h ↦ rw h (append_assoc s.fibers (ft ∷ []) (tasks l))
  | inr h ↦ rw h refl
]

is_nil-schedule :
    (s : Scheduler) (ft : FiberOrCb)
    → is_nil s.fibers ≡ false
    → is_nil (schedule_no_lock s ft).1.fibers ≡ false
unfolding schedule_no_lock
is_nil-schedule s ft h = elim (Bool-cases (is_task ft)) [
  | inl t ↦ rw t (longer s.fibers h)
  | inr t ↦ rw t h
]
  where
    longer : (l : List FiberOrCb) → is_nil l ≡ false → is_nil (l ++ ft ∷ []) ≡ false
    longer [] h = cc
    longer (x ∷ l) h = refl

-- `schedule` of a range keeps the queue without empty tasks. It puts the tasks that are not empty
-- behind the queue, in order, and tickles if the queue was empty and the range was not.
pub schedule_range-IsQueue :
    (s : Scheduler) (l : List FiberOrCb)
    → IsQueue s.fibers
    → IsQueue (schedule_range s l).1.fibers
      × ((schedule_range s l).1.fibers ≡ s.fibers ++ tasks l)
      × ((schedule_range s l).0 ≡ (is_nil s.fibers && not (is_nil l)))
unfolding schedule_range schedule_no_lock
schedule_range-IsQueue s [] q = (q, sym (append-nil s.fibers), ground arith)
schedule_range-IsQueue s (ft ∷ l) q =
    let s' = (schedule_no_lock s ft).1 in
    let (w, fibers, tickle) = schedule_range-IsQueue s' l (schedule_no_lock-IsQueue s ft q) in
    (
      w,
      fibers ∙ fibers-schedule s ft l,
      rw tickle (once (is_nil s.fibers) (is_nil s'.fibers) (not (is_nil l)) (is_nil-schedule s ft)),
    )
  where
    once : (a b c : Bool) → (a ≡ false → b ≡ false) → (a || (b && c)) ≡ (a && true)
    once true b c h = refl
    once false b c h = rw (h refl) refl
