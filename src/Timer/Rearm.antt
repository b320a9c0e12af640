-- ===== src/Timer/Rearm.antt =====
-- The last loop of listExpiredCb of src/timer.cpp, which empties a timer or sets it again.
use net_ninja.Common.{
  true-false, ℕ, ◌+◌, ◌≡◌, refl, sym, ap, ◌∙◌, ◌⊎◌, inl, inr, ◌≢◌, List, [], ◌∷◌, Option, none, map,
  if◌then◌else◌, Bool-cases,
}
use net_ninja.Timer.{Timer, u64, put, insert, rearm}
use net_ninja.Timer.Order.{
  IsSorted, Elem, IsBelow-Elem, before_irrefl, insert-IsSorted, Elem-insert_self, Elem-insert_of,
  Elem-of-insert, put-IsSorted,
}
use net_ninja.Timer.Invariant.{IsTimerSet, put_self, put_ne, Elem-ne, eq_or_ne}

abbrev pub IsDistinct : List ℕ → Type 0
IsDistinct [] = Unit {0}
IsDistinct (p ∷ l) = (¬ Elem p l) × IsDistinct l

pub IsDistinct-sorted : (store : ℕ → Timer) (l : List ℕ) → IsSorted store l → IsDistinct l
IsDistinct-sorted store [] s = tt
IsDistinct-sorted store (p ∷ l) s = (
  (λ e. true-false (IsBelow-Elem store p p l s.0 e) (before_irrefl store p)),
  IsDistinct-sorted store l s.1,
)

-- What a timer is after its callback was handed out.
unfoldable pub fired : ℕ → Timer → Timer
fired now t = if t.recurring then record t { next = u64 (now + t.ms) } else record t { cb = none }

-- All that holds while the timers `ps` are out of the set.
pub record IsWithoutAll (ps : List ℕ) (store : ℕ → Timer) (rest : List ℕ) : Type 0 where
  pub sorted : IsSorted store rest
  pub distinct : IsDistinct ps
  pub out : (p : ℕ) → Elem p ps → ¬ Elem p rest
  pub waiting : (p : ℕ) → Elem p ps → (store p).cb ≢ none
  pub live : (p : ℕ) → Elem p rest → (store p).cb ≢ none
  pub armed : (p : ℕ) → (store p).cb ≢ none → Elem p ps ⊎ Elem p rest

module _ (now : ℕ) where
  rearm_one : (ℕ → Timer) → ℕ → List ℕ → List ℕ
  rearm_one store p rest =
      if (store p).recurring then insert (put store p (fired now (store p))) p rest else rest

  pub rearm_nil :
      (store : ℕ → Timer) (rest : List ℕ)
      → ◌≡◌ {A = List (Option ℕ) × (ℕ → Timer) × List ℕ} (rearm store now [] rest) ([], store, rest)
  unfolding rearm
  rearm_nil store rest = refl

  rearm_step :
      (store : ℕ → Timer) (p : ℕ) (ps rest : List ℕ)
      → ◌≡◌ {A = List (Option ℕ) × (ℕ → Timer) × List ℕ} (rearm store now (p ∷ ps) rest) (
        (store p).cb
            ∷ (rearm (put store p (fired now (store p))) now ps (rearm_one store p rest)).0,
        (rearm (put store p (fired now (store p))) now ps (rearm_one store p rest)).1,
        (rearm (put store p (fired now (store p))) now ps (rearm_one store p rest)).2,
      )
  unfolding rearm rearm_one fired
  rearm_step store p ps rest = elim (Bool-cases (store p).recurring) [
    | inl h ↦ rw h refl
    | inr h ↦ rw h refl
  ]

  again-IsWithoutAll :
      (store : ℕ → Timer) (p : ℕ) (t : Timer) (ps rest : List ℕ)
      → t.cb ≢ none
      → IsWithoutAll (p ∷ ps) store rest
      → IsWithoutAll ps (put store p t) (insert (put store p t) p rest)
  again-IsWithoutAll store p t ps rest c w = record {
    sorted =
        insert-IsSorted (put store p t) p rest
          (put-IsSorted store p t rest (w.out p (inl refl)) w.sorted);
    distinct = w.distinct.1;
    out = λ q e i. elim (Elem-of-insert (put store p t) q p rest i) [
      | inl same ↦ Elem-ne p q ps w.distinct.0 e same
      | inr there ↦ w.out q (inr e) there
    ];
    waiting = λ q e. rw (put_ne store p q t (Elem-ne p q ps w.distinct.0 e)) (w.waiting q (inr e));
    live = λ q i. elim (eq_or_ne p q) [
      | inl same ↦ rw (same, put_self store p t) c
      | inr other ↦ elim (Elem-of-insert (put store p t) q p rest i) [
        | inl same ↦ absurd (other same)
        | inr there ↦ rw (put_ne store p q t other) (w.live q there)
      ]
    ];
    armed = λ q k. elim (eq_or_ne p q) [
      | inl same ↦ inr (rw same (Elem-insert_self (put store p t) p rest))
      | inr other ↦ elim (w.armed q (rw (put_ne store p q t other) at k)) [
        | inl (inl same) ↦ absurd (other same)
        | inl (inr there) ↦ inl there
        | inr there ↦ inr (Elem-insert_of (put store p t) q p rest there)
      ]
    ];
  }

  emptied-IsWithoutAll :
      (store : ℕ → Timer) (p : ℕ) (t : Timer) (ps rest : List ℕ)
      → t.cb ≡ none
      → IsWithoutAll (p ∷ ps) store rest
      → IsWithoutAll ps (put store p t) rest
  emptied-IsWithoutAll store p t ps rest c w = record {
    sorted = put-IsSorted store p t rest (w.out p (inl refl)) w.sorted;
    distinct = w.distinct.1;
    out = λ q e i. w.out q (inr e) i;
    waiting = λ q e. rw (put_ne store p q t (Elem-ne p q ps w.distinct.0 e)) (w.waiting q (inr e));
    live = λ q i. rw (put_ne store p q t (Elem-ne p q rest (w.out p (inl refl)) i)) (w.live q i);
    armed = λ q k. elim (eq_or_ne p q) [
      | inl same ↦
          absurd (k (ap (λ u. (put store p t u).cb) same ∙ ap (λ u. u.cb) (put_self store p t) ∙ c))
      | inr other ↦ elim (w.armed q (rw (put_ne store p q t other) at k)) [
        | inl (inl same) ↦ absurd (other same)
        | inl (inr there) ↦ inl there
        | inr there ↦ inr there
      ]
    ];
  }

  rearm_one-IsWithoutAll :
      (store : ℕ → Timer) (p : ℕ) (ps rest : List ℕ)
      → IsWithoutAll (p ∷ ps) store rest
      → IsWithoutAll ps (put store p (fired now (store p))) (rearm_one store p rest)
  unfolding rearm_one fired
  rearm_one-IsWithoutAll store p ps rest w = elim (Bool-cases (store p).recurring) [
    | inl h ↦ rw h (again-IsWithoutAll store p _ ps rest (w.waiting p (inl refl)) w)
    | inr h ↦ rw h (emptied-IsWithoutAll store p _ ps rest refl w)
  ]

  pub rearm-IsTimerSet :
      (store : ℕ → Timer) (ps rest : List ℕ)
      → IsWithoutAll ps store rest
      → IsTimerSet (rearm store now ps rest).1 (rearm store now ps rest).2
  rearm-IsTimerSet store [] rest w = rw (rearm_nil store rest) (record {
    sorted = w.sorted;
    live = w.live;
    armed = λ p c. elim (w.armed p c) [ inl e ↦ absurd e | inr e ↦ e ];
  })
  rearm-IsTimerSet store (p ∷ ps) rest w = rw (rearm_step store p ps rest) (
      rearm-IsTimerSet (put store p (fired now (store p))) ps (rearm_one store p rest)
        (rearm_one-IsWithoutAll store p ps rest w))

  map-put_ne :
      (store : ℕ → Timer) (p : ℕ) (t : Timer) (l : List ℕ)
      → ¬ Elem p l
      → map (λ q. (put store p t q).cb) l ≡ map (λ q. (store q).cb) l
  map-put_ne store p t [] h = refl
  map-put_ne store p t (q ∷ l) h =
      rw (put_ne store p q t (λ e. h (inl (sym e))), map-put_ne store p t l (λ e. h (inr e))) refl

  pub rearm-cbs :
      (store : ℕ → Timer) (ps rest : List ℕ)
      → IsDistinct ps
      → (rearm store now ps rest).0 ≡ map (λ p. (store p).cb) ps
  rearm-cbs store [] rest d = rw (rearm_nil store rest) refl
  rearm-cbs store (p ∷ ps) rest d = rw (rearm_step store p ps rest) (
      ap (λ (t : List (Option ℕ)). (store p).cb ∷ t)
        (rearm-cbs (put store p (fired now (store p))) ps (rearm_one store p rest) d.1
          ∙ map-put_ne store p (fired now (store p)) ps d.0))

  pub rearm_ne :
      (store : ℕ → Timer) (ps rest : List ℕ) (q : ℕ)
      → ¬ Elem q ps
      → (rearm store now ps rest).1 q ≡ store q
  rearm_ne store [] rest q h = rw (rearm_nil store rest) refl
  rearm_ne store (p ∷ ps) rest q h = rw (rearm_step store p ps rest) (
      rearm_ne (put store p (fired now (store p))) ps (rearm_one store p rest) q (λ e. h (inr e))
      ∙ put_ne store p q (fired now (store p)) (λ e. h (inl e)))

  pub rearm-Elem :
      (store : ℕ → Timer) (ps rest : List ℕ) (q : ℕ)
      → IsDistinct ps
      → Elem q ps
      → (rearm store now ps rest).1 q ≡ fired now (store q)
  rearm-Elem store [] rest q d e = absurd e
  rearm-Elem store (p ∷ ps) rest q d (inl same) =
      rw (rearm_step store p ps rest, same)
        (rearm_ne (put store p (fired now (store p))) ps (rearm_one store p rest) p d.0
          ∙ put_self store p (fired now (store p)))
  rearm-Elem store (p ∷ ps) rest q d (inr e) = rw (rearm_step store p ps rest) (
      rearm-Elem (put store p (fired now (store p))) ps (rearm_one store p rest) q d.1 e
      ∙ ap (fired now) (put_ne store p q (fired now (store p)) (Elem-ne p q ps d.0 e)))
