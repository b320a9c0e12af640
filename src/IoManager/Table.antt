-- ===== src/IoManager/Table.antt =====
-- The vector of contexts in src/iomanager.cpp, and what holds of the whole object.
use net_ninja.Common.{
  ℕ, zero, suc, ◌+◌, ◌-◌, ◌*◌, ◌/◌, ◌%◌, ◌^◌, ◌≤◌, ◌<◌, ◌≡◌, refl, sym, ap, ◌∙◌, List, [], ◌∷◌,
  ◌++◌, some, Bool-cases, ◌⊎◌, inl, inr, arith, ltb, length, get_elem?, set, take_all,
  length-append,
}
use net_ninja.IoManager.{
  FdContext, IoManager, no_events, fresh_contexts, context_resize, new_io_manager, grown_for,
}
use net_ninja.IoManager.Context.{IsContext, weight}

-- Each context has its place as its number.
abbrev pub IsTable : ℕ → List FdContext → Type 0
IsTable i [] = Unit {0}
IsTable i (c ∷ l) = (c.fd ≡ i) × IsContext c × IsTable (suc i) l

-- The number of registered events.
abbrev pub total : List FdContext → ℕ
total [] = 0
total (c ∷ l) = weight c + total l

pub get-IsContext :
    (i k : ℕ) (l : List FdContext) (c : FdContext)
    → IsTable i l
    → get_elem? l k ≡ some c
    → (c.fd ≡ i + k) × IsContext c
get-IsContext i k [] c t e = cc
get-IsContext i zero (d ∷ l) c t e = ground (arith, t)
get-IsContext i (suc k) (d ∷ l) c t e =
    let r = get-IsContext (suc i) k l c t.2 e in (omega (arith, r.0), r.1)

pub set-IsTable :
    (i k : ℕ) (l : List FdContext) (c : FdContext)
    → IsTable i l
    → c.fd ≡ i + k
    → IsContext c
    → IsTable i (set l k c)
set-IsTable i k [] c t n v = tt
set-IsTable i zero (d ∷ l) c t n v = (omega (arith, n), v, t.2)
set-IsTable i (suc k) (d ∷ l) c t n v =
    (t.0, t.1, set-IsTable (suc i) k l c t.2 (omega (arith, n)) v)

some_eq : (a b : FdContext) → some a ≡ some b → a ≡ b
some_eq a b e = cc

pub total-set :
    (k : ℕ) (l : List FdContext) (c d : FdContext)
    → get_elem? l k ≡ some c
    → total (set l k d) + weight c ≡ total l + weight d
total-set k [] c d e = cc
total-set zero (b ∷ l) c d e = ground (arith, ap weight (some_eq b c e))
total-set (suc k) (b ∷ l) c d e = omega (arith, total-set k l c d e)

get-fresh :
    (n i k : ℕ) (c : FdContext) → get_elem? (fresh_contexts n i) k ≡ some c → c.events ≡ no_events
unfolding fresh_contexts
get-fresh zero i k c e = cc
get-fresh (suc n) i zero c e = ap (λ d. d.events) (sym (some_eq _ c e))
get-fresh (suc n) i (suc k) c e = get-fresh n (suc i) k c e

get-grown :
    (l : List FdContext) (n i k : ℕ) (c : FdContext)
    → length l ≤ k
    → get_elem? (l ++ fresh_contexts n i) k ≡ some c
    → c.events ≡ no_events
get-grown [] n i k c h e = get-fresh n i k c e
get-grown (d ∷ l) n i zero c h e = absurd (omega arith)
get-grown (d ∷ l) n i (suc k) c h e = get-grown l n i k c (omega arith) e

append-IsTable :
    (i : ℕ) (l r : List FdContext) → IsTable i l → IsTable (i + length l) r → IsTable i (l ++ r)
append-IsTable i [] r t u = rw (add-zero i) at u
  where
    add-zero : (n : ℕ) → n + 0 ≡ n
    add-zero n = omega arith
append-IsTable i (c ∷ l) r t u =
    (t.0, t.1, append-IsTable (suc i) l r t.2 (rw (add-suc_right i (length l)) at u))
  where
    add-suc_right : (n k : ℕ) → n + suc k ≡ suc n + k
    add-suc_right n k = omega arith

fresh-IsTable : (n i : ℕ) → IsTable i (fresh_contexts n i)
unfolding fresh_contexts
fresh-IsTable zero i = tt
fresh-IsTable (suc n) i = (refl, (refl, refl), fresh-IsTable n (suc i))

length-fresh : (n i : ℕ) → length (fresh_contexts n i) ≡ n
unfolding fresh_contexts
length-fresh zero i = refl
length-fresh (suc n) i = ap suc (length-fresh n (suc i))

total-fresh : (n i : ℕ) → total (fresh_contexts n i) ≡ 0
unfolding fresh_contexts
total-fresh zero i = refl
total-fresh (suc n) i = omega (arith, total-fresh n (suc i))

total-append : (l r : List FdContext) → total (l ++ r) ≡ total l + total r
total-append [] r = omega arith
total-append (c ∷ l) r = omega (arith, total-append l r)

-- Every context is well formed and at its place, and m_pendingEventCount counts the registered
-- events. The vector never has fewer than the 32 places of the constructor.
pub record IsValid (m : IoManager) : Type 0 where
  pub table : IsTable 0 m.contexts
  pub count : m.pending ≡ total m.contexts % 2 ^ 64
  pub large : 32 ≤ length m.contexts

pub record IsGrown (m : IoManager) (size : ℕ) (m' : IoManager) : Type 0 where
  pub valid : IsValid m'
  pub length_eq : length m'.contexts ≡ size
  pub total_eq : total m'.contexts ≡ total m.contexts
  pub pending_eq : m'.pending ≡ m.pending
  pub tasks_eq : m'.tasks ≡ m.tasks
  pub calls_eq : m'.calls ≡ m.calls

context_resize-IsGrown :
    (m : IoManager) (size : ℕ)
    → IsTable 0 m.contexts
    → m.pending ≡ total m.contexts % 2 ^ 64
    → 32 ≤ size
    → length m.contexts ≤ size
    → IsGrown m size (context_resize m size)
unfolding context_resize
context_resize-IsGrown m size t n o h = rw (take_all size m.contexts h) (record {
  valid = record {
    table = append-IsTable 0 m.contexts _ t (
        rw (zero-add (length m.contexts))
          (fresh-IsTable (size - length m.contexts) (length m.contexts)));
    count = n ∙ ap (λ (k : ℕ). k % 2 ^ 64) (sym same_total);
    large = omega (arith, o, same_length);
  };
  length_eq = same_length;
  total_eq = same_total;
  pending_eq = refl;
  tasks_eq = refl;
  calls_eq = refl;
})
  where
    zero-add : (k : ℕ) → 0 + k ≡ k
    zero-add k = omega arith

    same_total :
        total (m.contexts ++ fresh_contexts (size - length m.contexts) (length m.contexts))
        ≡ total m.contexts
    same_total = omega (
      arith,
      total-append m.contexts (fresh_contexts (size - length m.contexts) (length m.contexts)),
      total-fresh (size - length m.contexts) (length m.contexts),
    )

    same_length :
        length (m.contexts ++ fresh_contexts (size - length m.contexts) (length m.contexts)) ≡ size
    same_length = omega (
      arith,
      h,
      length-append m.contexts (fresh_contexts (size - length m.contexts) (length m.contexts)),
      length-fresh (size - length m.contexts) (length m.contexts),
    )

pub new_io_manager-IsValid : IsValid new_io_manager
unfolding new_io_manager
new_io_manager-IsValid = (context_resize-IsGrown _ 32 tt refl (omega arith) (omega arith)).valid

-- The vector is grown for a descriptor behind its end, and then has a place for it.
pub grown_for-IsGrown :
    (m : IoManager) (fd : ℕ)
    → IsValid m
    → (size : ℕ) × IsGrown m size (grown_for m fd) × (fd < size)
unfolding grown_for
grown_for-IsGrown m fd v = elim (Bool-cases (ltb fd (length m.contexts))) [
  | inl h ↦ rw h (
    length m.contexts,
    record {
      valid = v;
      length_eq = refl;
      total_eq = refl;
      pending_eq = refl;
      tasks_eq = refl;
      calls_eq = refl;
    },
    ground arith,
  )
  | inr h ↦ rw h (
    fd * 3 / 2,
    context_resize-IsGrown m (fd * 3 / 2) v.table v.count (ground (arith, v.large))
        (ground (arith, v.large)),
    ground (arith, v.large),
  )
]

pub get-grown_for :
    (m : IoManager) (fd : ℕ) (c : FdContext)
    → IsValid m
    → get_elem? (grown_for m fd).contexts fd ≡ some c
    → (get_elem? m.contexts fd ≡ some c) ⊎ (c.events ≡ no_events)
unfolding grown_for context_resize
get-grown_for m fd c v g = elim (Bool-cases (ltb fd (length m.contexts))) [
  | inl h ↦ inl (rw h at g)
  | inr h ↦ inr (
      get-grown m.contexts _ _ fd c (ground arith)
        (rw (take_all (fd * 3 / 2) m.contexts (ground (arith, v.large))) at (rw h at g)))
]
