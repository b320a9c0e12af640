-- ===== src/Timer/Invariant.antt =====
-- The set holds exactly the timers that have a callback, in order; every call keeps that.
use net_ninja.Common.{ℕ, ◌≡◌, ap, ◌∙◌, ◌⊎◌, inl, inr, ◌≢◌, List, none, arith}
use mathlib.Core.Path.{subst}
use native.Mathlib.Decide.{ℕ_discrete}
use net_ninja.Timer.{Timer, TimerManager, put, insert, erase}
use net_ninja.Timer.Order.{
  IsSorted, Elem, insert-IsSorted, Elem-insert_self, Elem-insert_of, Elem-of-insert, erase-IsSorted,
  Elem-of-erase, not-Elem-erase, Elem-erase_ne, put-IsSorted,
}

pub record IsTimerSet (store : ℕ → Timer) (timers : List ℕ) : Type 0 where
  pub sorted : IsSorted store timers
  pub live : (p : ℕ) → Elem p timers → (store p).cb ≢ none
  pub armed : (p : ℕ) → (store p).cb ≢ none → Elem p timers

abbrev pub IsValid : TimerManager → Type 0
IsValid m = IsTimerSet m.store m.timers

pub put_self : (store : ℕ → Timer) (p : ℕ) (t : Timer) → put store p t p ≡ t
put_self store p t = ground arith

pub put_ne : (store : ℕ → Timer) (p q : ℕ) (t : Timer) → q ≢ p → put store p t q ≡ store q
put_ne store p q t h = ground arith

-- All that holds of the set while the timer `p` is out of it.
pub record IsWithout (p : ℕ) (store : ℕ → Timer) (rest : List ℕ) : Type 0 where
  pub sorted : IsSorted store rest
  pub out : ¬ Elem p rest
  pub live : (q : ℕ) → Elem q rest → (store q).cb ≢ none
  pub armed : (q : ℕ) → (store q).cb ≢ none → (q ≡ p) ⊎ Elem q rest

pub Elem-ne : (p q : ℕ) (l : List ℕ) → ¬ Elem p l → Elem q l → q ≢ p
Elem-ne p q l out e h = out (subst (λ t. Elem t l) h e)

pub eq_or_ne : (p q : ℕ) → (q ≡ p) ⊎ (q ≢ p)
eq_or_ne p q = elim (ℕ_discrete q p) [ yes e ↦ inl e | no e ↦ inr e ]

-- The object `p` given anew, with a callback, and inserted.
pub insert-IsTimerSet :
    (store : ℕ → Timer) (p : ℕ) (t : Timer) (rest : List ℕ)
    → IsWithout p store rest
    → t.cb ≢ none
    → IsTimerSet (put store p t) (insert (put store p t) p rest)
insert-IsTimerSet store p t rest w cb = record {
  sorted = insert-IsSorted (put store p t) p rest (put-IsSorted store p t rest w.out w.sorted);
  live = λ q e. elim (eq_or_ne p q) [
    | inl same ↦ rw (same, put_self store p t) cb
    | inr other ↦ rw (put_ne store p q t other) (w.live q (elem_ne-insert q e other))
  ];
  armed = λ q c. elim (eq_or_ne p q) [
    | inl same ↦ rw same (Elem-insert_self (put store p t) p rest)
    | inr other ↦
        Elem-insert_of (put store p t) q p rest
          (was_elem q other (rw (put_ne store p q t other) at c))
  ];
}
  where
    elem_ne-insert : (q : ℕ) → Elem q (insert (put store p t) p rest) → q ≢ p → Elem q rest
    elem_ne-insert q e h = elim (Elem-of-insert (put store p t) q p rest e) [
      | inl same ↦ absurd (h same)
      | inr there ↦ there
    ]

    was_elem : (q : ℕ) → q ≢ p → (store q).cb ≢ none → Elem q rest
    was_elem q h c = elim (w.armed q c) [ inl same ↦ absurd (h same) | inr there ↦ there ]

-- The object `p` emptied and left out.
pub drop-IsTimerSet :
    (store : ℕ → Timer) (p : ℕ) (t : Timer) (rest : List ℕ)
    → IsWithout p store rest
    → t.cb ≡ none
    → IsTimerSet (put store p t) rest
drop-IsTimerSet store p t rest w cb = record {
  sorted = put-IsSorted store p t rest w.out w.sorted;
  live = λ q e. rw (put_ne store p q t (Elem-ne p q rest w.out e)) (w.live q e);
  armed = λ q c. elim (eq_or_ne p q) [
    | inl same ↦
        absurd (c (ap (λ u. (put store p t u).cb) same ∙ ap (λ u. u.cb) (put_self store p t) ∙ cb))
    | inr other ↦ elim (w.armed q (rw (put_ne store p q t other) at c)) [
      | inl same ↦ absurd (other same)
      | inr there ↦ there
    ]
  ];
}

-- `erase` takes the timer out.
pub erase-IsWithout :
    (store : ℕ → Timer) (p : ℕ) (timers : List ℕ)
    → IsTimerSet store timers
    → IsWithout p store (erase store p timers)
erase-IsWithout store p timers v = record {
  sorted = erase-IsSorted store p timers v.sorted;
  out = not-Elem-erase store p timers v.sorted;
  live = λ q e. v.live q (Elem-of-erase store q p timers e);
  armed = λ q c. elim (eq_or_ne p q) [
    | inl same ↦ inl same
    | inr other ↦ inr (Elem-erase_ne store q p timers (v.armed q c) other)
  ];
}

-- A timer with no callback is out of the set.
pub fresh-IsWithout :
    (store : ℕ → Timer) (p : ℕ) (timers : List ℕ)
    → IsTimerSet store timers
    → (store p).cb ≡ none
    → IsWithout p store timers
fresh-IsWithout store p timers v e = record {
  sorted = v.sorted;
  out = λ there. v.live p there e;
  live = v.live;
  armed = λ q c. inr (v.armed q c);
}
