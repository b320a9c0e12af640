-- ===== src/IoManager/Running.antt =====
-- addEvent of src/iomanager.cpp, where the fiber that waits is not in the state EXEC.
use net_ninja.Common.{
  ℕ, ◌≡◌, sym, ◌∙◌, inl, inr, Bool, true, false, ◌&&◌, Option, none, some, arith, get_elem?,
  Bool-cases, if_true, if_false, some_is, Outcome, ok, aborted, Option-cases,
}
use net_ninja.IoManager.{
  is_empty_context, Event, EventContext, FdContext, Ctl, IoManager, has, get_context, waiting,
  grown_for, add_event_to, add_event,
}
use net_ninja.IoManager.Calls.{add_ctl}

aborted_ok : (r : Bool × IoManager) → ◌≡◌ {A = Outcome (Bool × IoManager)} aborted (ok r) → ⊥
aborted_ok r h = cc

and_false : (b : Bool) → (b && false) ≡ false
and_false b = ground arith

add_event_to_ready :
    (epoll_ctl : Ctl → Bool) (m : IoManager) (c : FdContext) (fd : ℕ) (e : Event) (x : EventContext)
    (r : Bool × IoManager)
    → add_event_to epoll_ctl m c fd e x false ≡ ok r
    → add_event_to epoll_ctl m c fd e x true ≡ ok r
unfolding add_event_to
add_event_to_ready epoll_ctl m c fd e x r run = elim (Bool-cases (has c.events e)) [
  | inl a ↦ absurd (aborted_ok r (sym (if_true a _ _) ∙ run))
  | inr a ↦ elim (Bool-cases (epoll_ctl (add_ctl c fd e))) [
    | inl b ↦ absurd (
        aborted_ok r (
          sym (
            if_false a _ _
            ∙ if_true b _ _
            ∙ if_false (and_false (is_empty_context (get_context c e))) _ _)
          ∙ run))
    | inr b ↦ if_false a _ _ ∙ if_false b _ _ ∙ sym (if_false a _ _ ∙ if_false b _ _) ∙ run
  ]
]

-- An `addEvent` that does not abort does the same where the fiber that waits is in the state EXEC.
pub add_event_running :
    (epoll_ctl : Ctl → Bool) (m : IoManager) (fd : ℕ) (e : Event) (cb : Option ℕ)
    (scheduler fiber : ℕ) (running : Bool) (r : Bool × IoManager)
    → add_event epoll_ctl m fd e cb (some scheduler) fiber running ≡ ok r
    → add_event epoll_ctl m fd e cb (some scheduler) fiber true ≡ ok r
unfolding add_event
add_event_running epoll_ctl m fd e (some f) scheduler fiber running r run = run
add_event_running epoll_ctl m fd e none scheduler fiber true r run = run
add_event_running epoll_ctl m fd e none scheduler fiber false r run =
    elim (Option-cases (get_elem? (grown_for m fd).contexts fd)) [
      | inl g ↦ rw (add_event, g) (rw (add_event, g) at run)
      | inr (c, g) ↦
          some_is {o = get_elem? (grown_for m fd).contexts fd} g _ _
          ∙ add_event_to_ready epoll_ctl (grown_for m fd) c fd e
              (waiting (some scheduler) none fiber) r
              (sym (some_is {o = get_elem? (grown_for m fd).contexts fd} g _ _) ∙ run)
    ]
