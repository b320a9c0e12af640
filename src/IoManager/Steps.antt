-- ===== src/IoManager/Steps.antt =====
-- The calls of src/iomanager.cpp one after another: no event is lost, and none fires twice.
use net_ninja.Common.{
  ℕ, ◌+◌, ◌%◌, ◌^◌, ◌<◌, ◌≡◌, refl, sym, ap, ◌∙◌, Bool, true, false, not, ◌||◌, Option, some, arith,
  if◌then◌else◌, length, Outcome, ok, out_of_range, fault, aborted,
}
use mathlib.Core.Path.{subst}
use net_ninja.IoManager.{
  is_null, Event, Events, Ctl, IoManager, new_io_manager, context_resize, fresh_contexts, add_event,
  del_event, cancel_event, cancel_all, dispatch,
}
use net_ninja.IoManager.Table.{total, IsValid, new_io_manager-IsValid}
use net_ninja.IoManager.Calls.{is_registered, add_event-IsValid}
use net_ninja.IoManager.Running.{add_event_running}
use net_ninja.IoManager.Deleted.{del_event-IsValid}
use net_ninja.IoManager.Triggered.{held}
use net_ninja.IoManager.Cancel.{cancel_event-IsHanded, cancel_all-IsHanded}
use net_ninja.IoManager.Ready.{IsExpected, dispatch-IsHanded}

or_true : (b : Bool) → (b || true) ≡ true
or_true b = ground arith

-- What a call adds to a count when its answer is true.
abbrev pub one_if : Bool → ℕ
one_if b = if b then 1 else 0

-- One call, on any thread of a scheduler, with any answers of epoll_ctl. The caller of `addEvent` does
-- not wait for the event already, and epoll reports events that are registered.
pub data Step (m : IoManager) : IoManager → ℕ → ℕ → Type 0 where
  added :
      (epoll_ctl : Ctl → Bool) (fd : ℕ) (e : Event) (cb : Option ℕ) (scheduler fiber : ℕ)
      (running r : Bool) (m' : IoManager)
      → is_registered m fd e ≡ false
      → add_event epoll_ctl m fd e cb (some scheduler) fiber running ≡ ok (r, m')
      → Step m m' (one_if r) 0
  deleted :
      (epoll_ctl : Ctl → Bool) (fd : ℕ) (e : Event)
      → Step m (del_event epoll_ctl m fd e).1 0 (one_if (del_event epoll_ctl m fd e).0)
  cancelled :
      (epoll_ctl : Ctl → Bool) (fd : ℕ) (e : Event) (r : Bool) (m' : IoManager)
      → cancel_event epoll_ctl m fd e ≡ ok (r, m')
      → Step m m' 0 0
  all_cancelled :
      (epoll_ctl : Ctl → Bool) (fd : ℕ) (r : Bool) (m' : IoManager)
      → cancel_all epoll_ctl m fd ≡ ok (r, m')
      → Step m m' 0 0
  reported :
      (epoll_ctl : Ctl → Bool) (fd : ℕ) (events : Events) (broken : Bool) (m' : IoManager)
      → fd < length m.contexts
      → IsExpected m fd events
      → dispatch epoll_ctl m fd events broken ≡ ok m'
      → Step m m' 0 0

-- With the numbers of events that were added and deleted.
pub data IsReachable : IoManager → ℕ → ℕ → Type 0 where
  start : IsReachable new_io_manager 0 0
  step :
      (m m' : IoManager) (a d a' d' : ℕ)
      → IsReachable m a d
      → Step m m' a' d'
      → IsReachable m' (a + a') (d + d')

abbrev pub or_this {ℓ} : {A : Type ℓ} → A → Outcome A → A
or_this a (ok b) = b
or_this a out_of_range = a
or_this a fault = a
or_this a aborted = a

pub ok_eq {ℓ} : {A : Type ℓ} (a b : A) → ok a ≡ ok b → a ≡ b
ok_eq a b e = ap (or_this a) e

Step-IsValid :
    (m m' : IoManager) (a d : ℕ)
    → IsValid m
    → Step m m' a d
    → IsValid m' × (held m' + d ≡ held m + a)
Step-IsValid m m' a d v (Step.added ctl fd e cb s f b r n free run) =
    let (r', n', run', w, reg, tot, ts, ws) =
      add_event-IsValid ctl m fd e cb s f true v free (or_true (not (is_null cb))) in
    let same : ◌≡◌ {A = Bool × IoManager} (r', n') (r, n) =
      ok_eq (r', n') (r, n) (sym run' ∙ add_event_running ctl m fd e cb s f b (r, n) run) in
    subst (λ (t : Bool × IoManager). IsValid t.1 × (held t.1 + 0 ≡ held m + one_if t.0)) same
      (w, omega (arith, tot, ap length ts))
Step-IsValid m m' a d v (Step.deleted ctl fd e) =
    let (w, gone, tot, ts) = del_event-IsValid ctl m fd e v in (w, omega (arith, tot, ap length ts))
Step-IsValid m m' a d v (Step.cancelled ctl fd e r n run) =
    let (r', n', run', (w, h, ts)) = cancel_event-IsHanded ctl m fd e v in
    let same : ◌≡◌ {A = Bool × IoManager} (r', n') (r, n) =
      ok_eq (r', n') (r, n) (sym run' ∙ run) in
    subst (λ (t : Bool × IoManager). IsValid t.1 × (held t.1 + 0 ≡ held m + 0)) same
      (w, omega (arith, h))
Step-IsValid m m' a d v (Step.all_cancelled ctl fd r n run) =
    let (r', n', run', (w, h, ts)) = cancel_all-IsHanded ctl m fd v in
    let same : ◌≡◌ {A = Bool × IoManager} (r', n') (r, n) =
      ok_eq (r', n') (r, n) (sym run' ∙ run) in
    subst (λ (t : Bool × IoManager). IsValid t.1 × (held t.1 + 0 ≡ held m + 0)) same
      (w, omega (arith, h))
Step-IsValid m m' a d v (Step.reported ctl fd s b n below x run) =
    let (r', n', took, run', (w, h, ts)) = dispatch-IsHanded ctl m fd s b v below x in
    subst (λ (t : IoManager). IsValid t × (held t + 0 ≡ held m + 0)) (ok_eq n' n (sym run' ∙ run))
      (w, omega (arith, h))

none_held : held new_io_manager ≡ 0
unfolding new_io_manager context_resize fresh_contexts
none_held = refl

-- After any calls that add `a` events and delete `d`, m_pendingEventCount is the number of registered
-- events, modulo its width, and the events that are registered, those that were handed to a scheduler
-- and those that were deleted are together as many as were added.
pub reachable-IsConserved :
    (m : IoManager) (a d : ℕ)
    → IsReachable m a d
    → (m.pending ≡ total m.contexts % 2 ^ 64) × (total m.contexts + length m.tasks + d ≡ a)
reachable-IsConserved m a d r = let (v, n) = go m a d r in (v.count, n)
  where
    go : (m : IoManager) (a d : ℕ) → IsReachable m a d → IsValid m × (held m + d ≡ a)
    go m a d IsReachable.start = (new_io_manager-IsValid, omega (arith, none_held))
    go m a d (IsReachable.step n m' b e b' e' r s) =
        let (v, h) = go n b e r in
        let (w, k) = Step-IsValid n m' b' e' v s in (w, omega (arith, h, k))
