-- ===== src/FdManager/Known.antt =====
-- One object for each descriptor of src/fd_manager.cpp, until it is deleted.
use net_ninja.Common.{
  ℕ, zero, suc, ◌+◌, ◌-◌, ◌*◌, ◌/◌, ◌<◌, ◌≤◌, ◌≡◌, ◌≢◌, ◌⊎◌, refl, sym, ap, ◌∙◌, inl, inr, Bool,
  List, [], ◌∷◌, ◌++◌, Option, none, some, leb, length, get_elem?, set, arith, leb→le, take_all,
  append-nil, length-append, length-set, get-below, get-set, get-set_other, get-append_at, some_is,
  Bool-cases,
}
use net_ninja.FdManager.{FdCtx, FdManager, nulls, resize, lookup, reach, new_fd_ctx, create}

-- A pointer reaches an object that was made for the descriptor.
abbrev pub IsObject : FdManager → ℕ → ℕ → Type 0
IsObject m fd p = (c : FdCtx) × (get_elem? m.objects p ≡ some c) × (c.fd ≡ fd)

-- The table never shrinks below its first size, and every pointer in it reaches an object of its
-- descriptor.
pub record IsValid (m : FdManager) : Type 0 where
  pub large : 64 ≤ length m.datas
  pub pointers : (fd p : ℕ) → lookup m fd ≡ some p → IsObject m fd p

pub length-nulls : (k : ℕ) → length (nulls k) ≡ k
unfolding nulls
length-nulls zero = refl
length-nulls (suc k) = ap suc (length-nulls k)

pub eq_or_ne : (a b : ℕ) → (a ≡ b) ⊎ (a ≢ b)
eq_or_ne a b = ground arith

abbrev pub or_null : Option (Option ℕ) → Option ℕ
or_null o = elim o [ none ↦ none | some p ↦ p ]

pub get-nulls : (k n : ℕ) → or_null (get_elem? (nulls k) n) ≡ none
unfolding nulls
get-nulls zero n = refl
get-nulls (suc k) zero = refl
get-nulls (suc k) (suc n) = get-nulls k n

get-append_nulls :
    (l : List (Option ℕ)) (k n : ℕ) → or_null (get_elem? (l ++ nulls k) n) ≡ or_null (get_elem? l n)
get-append_nulls [] k n = get-nulls k n
get-append_nulls (p ∷ l) k zero = refl
get-append_nulls (p ∷ l) k (suc n) = get-append_nulls l k n

-- A table of the first size or more reaches a descriptor when it has grown for it, with nulls behind
-- what it had.
reach_cases :
    (l : List (Option ℕ)) (fd : ℕ)
    → 64 ≤ length l
    → (k : ℕ) × (reach l fd ≡ l ++ nulls k) × (fd < length l + k)
unfolding reach resize nulls
reach_cases l fd h = elim (Bool-cases (leb (length l) fd)) [
  | inl a ↦ (
    fd * 3 / 2 - length l,
    rw (a, take_all (fd * 3 / 2) l (omega (arith, leb→le (length l) fd a))) refl,
    omega (arith, leb→le (length l) fd a),
  )
  | inr a ↦ (0, rw a (sym (append-nil l)), ground arith)
]

pub lookup_set_self :
    (l : List (Option ℕ)) (fd : ℕ) (p : Option ℕ)
    → fd < length l
    → or_null (get_elem? (set l fd p) fd) ≡ p
lookup_set_self l fd p h = let (q, g) = get-below fd l h in some_is (get-set fd l q p g) _ _

pub create_other :
    (fstat : ℕ → Option Bool) (is_nonblock : ℕ → Bool) (m : FdManager) (fd other : ℕ)
    → IsValid m
    → fd ≢ other
    → lookup (create fstat is_nonblock m fd).1 other ≡ lookup m other
unfolding create lookup
create_other fstat is_nonblock m fd other v n =
    let (k, e, below) = reach_cases m.datas fd v.large in
    ap or_null (
      get-set_other fd other (reach m.datas fd) (some (length m.objects)) n
      ∙ ap (λ t. get_elem? t other) e)
    ∙ get-append_nulls m.datas k other

fd-new :
    (fstat : ℕ → Option Bool) (is_nonblock : ℕ → Bool) (fd : ℕ)
    → (new_fd_ctx fstat is_nonblock fd).fd ≡ fd
unfolding new_fd_ctx
fd-new fstat is_nonblock fd = refl

-- What `get` does under the write lock: a new object of the descriptor, which it reaches from then on.
pub create_here :
    (fstat : ℕ → Option Bool) (is_nonblock : ℕ → Bool) (m : FdManager) (fd : ℕ)
    → 64 ≤ length m.datas
    → let (p, m') = create fstat is_nonblock m fd in
      (64 ≤ length m'.datas)
      × (lookup m' fd ≡ some p)
      × (get_elem? m'.objects p ≡ some (new_fd_ctx fstat is_nonblock fd))
unfolding create lookup
create_here fstat is_nonblock m fd large =
    let (k, e, below) = reach_cases m.datas fd large in
    let n = length m.objects in
    let reached : length (reach m.datas fd) ≡ length m.datas + k =
      ap length e
      ∙ length-append m.datas (nulls k)
      ∙ ap (λ t. length m.datas + t) (length-nulls k) in
    let sized : length (set (reach m.datas fd) fd (some n)) ≡ length m.datas + k =
      length-set fd (reach m.datas fd) (some n) ∙ reached in
    (
      omega (arith, sized, large),
      lookup_set_self (reach m.datas fd) fd (some n) (omega (arith, below, reached)),
      get-append_at m.objects (new_fd_ctx fstat is_nonblock fd),
    )

get_more :
    (k : ℕ) (l r : List FdCtx) (a : FdCtx) → get_elem? l k ≡ some a → get_elem? (l ++ r) k ≡ some a
get_more k [] r a e = cc
get_more zero (b ∷ l) r a e = e
get_more (suc k) (b ∷ l) r a e = get_more k l r a e

create_kept :
    (fstat : ℕ → Option Bool) (is_nonblock : ℕ → Bool) (m : FdManager) (fd p : ℕ) (c : FdCtx)
    → get_elem? m.objects p ≡ some c
    → get_elem? (create fstat is_nonblock m fd).1.objects p ≡ some c
unfolding create
create_kept fstat is_nonblock m fd p c g =
    get_more p m.objects (new_fd_ctx fstat is_nonblock fd ∷ []) c g

-- The new object is of the descriptor, and every other keeps its own.
pub create-IsValid :
    (fstat : ℕ → Option Bool) (is_nonblock : ℕ → Bool) (m : FdManager) (fd : ℕ)
    → IsValid m
    → let (p, m') = create fstat is_nonblock m fd in
      IsValid m'
      × (lookup m' fd ≡ some p)
      × (get_elem? m'.objects p ≡ some (new_fd_ctx fstat is_nonblock fd))
create-IsValid fstat is_nonblock m fd v =
    let (large, here, object) = create_here fstat is_nonblock m fd v.large in
    (record { large = large; pointers = go here object }, here, object)
  where
    go :
        lookup (create fstat is_nonblock m fd).1 fd ≡ some (create fstat is_nonblock m fd).0
        → get_elem? (create fstat is_nonblock m fd).1.objects (create fstat is_nonblock m fd).0
          ≡ some (new_fd_ctx fstat is_nonblock fd)
        → (q p : ℕ) → lookup (create fstat is_nonblock m fd).1 q ≡ some p
        → IsObject (create fstat is_nonblock m fd).1 q p
    go here object q p g = elim (eq_or_ne fd q) [
      | inl e ↦
          let same : some (create fstat is_nonblock m fd).0 ≡ some p =
            sym here ∙ ap (lookup (create fstat is_nonblock m fd).1) e ∙ g in
          let place : (create fstat is_nonblock m fd).0 ≡ p = cc in
          (
            new_fd_ctx fstat is_nonblock fd,
            ap (get_elem? (create fstat is_nonblock m fd).1.objects) (sym place) ∙ object,
            fd-new fstat is_nonblock fd ∙ e,
          )
      | inr n ↦
          let (c, o, f) = v.pointers q p (sym (create_other fstat is_nonblock m fd q v n) ∙ g) in
          (c, create_kept fstat is_nonblock m fd p c o, f)
    ]
