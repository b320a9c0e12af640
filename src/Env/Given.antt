-- ===== src/Env/Given.antt =====
-- The arguments that `Env::init` of src/env.cpp takes.
use net_ninja.Common.{
  ◌≡◌, refl, sym, ap, ◌∙◌, inl, inr, true, false, Option, none, some, List, [], ◌∷◌, All,
  Bool-cases, true-false, ℕ, ==_iff,
}
use net_ninja.Http.{Text}
use net_ninja.Env.{Env, add, add_pending, init_args, is_key, is_long, behind}

-- A key with or without a value.
abbrev pub Given : Type 0
Given = Text × Option Text

-- The key is not empty and the value does not begin with a dash.
abbrev pub IsGiven : Given → Type 0
IsGiven ([], o) = ⊥
IsGiven (c ∷ key, none) = Unit
IsGiven (c ∷ key, some val) = is_key val ≡ false

-- The arguments as they are written.
abbrev pub written : List Given → List Text
written [] = []
written ((key, none) ∷ l) = (b'-' ∷ key) ∷ written l
written ((key, some val) ∷ l) = (b'-' ∷ key) ∷ val ∷ written l

-- The keys are added in their order, one without a value with the empty text.
abbrev pub add_all : List Given → Env → Env
add_all [] v = v
add_all ((key, none) ∷ l) v = add_all l (add key [] v)
add_all ((key, some val) ∷ l) v = add_all l (add key val v)

-- What has been read while a key waits for its value.
abbrev pending : Option Text → List Text → List Text
pending none argv = argv
pending (some key) argv = (b'-' ∷ key) ∷ argv

init_args-written_from :
    (now_key : Option Text) (l : List Given) (v : Env)
    → All IsGiven l
    → init_args now_key (written l) v ≡ (true, add_all l (add_pending now_key v))
unfolding init_args add_pending
init_args-written_from now_key [] v h = refl
init_args-written_from now_key (([], o) ∷ l) v h = absurd h.0
init_args-written_from now_key ((c ∷ key, none) ∷ l) v (h, k) =
    init_args-written_from (some (c ∷ key)) l (add_pending now_key v) k
init_args-written_from now_key ((c ∷ key, some val) ∷ l) v (h, k) =
    rw h (init_args-written_from none l (add (c ∷ key) val (add_pending now_key v)) k)

-- Arguments that are written from keys and values are taken, and each key is added with its value in
-- their order, if no key is empty and no value begins with a dash.
pub init_args-written :
    (l : List Given) (v : Env) → All IsGiven l → init_args none (written l) v ≡ (true, add_all l v)
unfolding add_pending
init_args-written l v h = init_args-written_from none l v h

abbrev IsPending : Option Text → Type 0
IsPending none = Unit
IsPending (some []) = ⊥
IsPending (some (c ∷ key)) = Unit

behind-is_key : (s : Text) → is_key s ≡ true → b'-' ∷ behind s ≡ s
behind-is_key [] h = cc
behind-is_key (c ∷ s) h = ap (λ (d : ℕ). d ∷ s) (sym ((==_iff c b'-').0 h))

behind-IsPending : (s : Text) → is_long s ≡ true → IsPending (some (behind s))
behind-IsPending [] h = absurd (true-false h refl)
behind-IsPending (c ∷ []) h = absurd (true-false h refl)
behind-IsPending (c ∷ d ∷ s) h = tt

-- The pairs that are written as the arguments, those still to come included.
abbrev IsWritten : Option Text → List Text → Type 0
IsWritten now_key argv = (l : List Given) × All IsGiven l × (written l ≡ pending now_key argv)

pending-IsWritten :
    (now_key : Option Text) (argv : List Text)
    → IsPending now_key
    → IsWritten none argv
    → IsWritten now_key argv
pending-IsWritten none argv p w = w
pending-IsWritten (some []) argv p w = absurd p
pending-IsWritten (some (c ∷ key)) argv p (l, h, e) =
    ((c ∷ key, none) ∷ l, (tt, h), ap (λ (t : List Text). (b'-' ∷ c ∷ key) ∷ t) e)

key-IsWritten :
    (now_key : Option Text) (s : Text) (argv : List Text) (v : Env)
    → IsPending now_key
    → is_key s ≡ true
    → (init_args now_key (s ∷ argv) v).0 ≡ true
    → (IsPending (some (behind s))
        → (init_args (some (behind s)) argv (add_pending now_key v)).0 ≡ true
        → IsWritten (some (behind s)) argv)
    → IsWritten now_key (s ∷ argv)
unfolding init_args
key-IsWritten now_key s argv v p k t w = elim (Bool-cases (is_long s)) [
  | inl m ↦
      let (l, h, e) = w (behind-IsPending s m) (rw (k, m) at t) in
      pending-IsWritten now_key (s ∷ argv) p
        (l, h, e ∙ ap (λ (r : Text). r ∷ argv) (behind-is_key s k))
  | inr m ↦ absurd (true-false (rw (k, m) at t) refl)
]

init_args-IsWritten :
    (now_key : Option Text) (argv : List Text) (v : Env)
    → IsPending now_key
    → (init_args now_key argv v).0 ≡ true
    → IsWritten now_key argv
unfolding init_args add_pending
init_args-IsWritten none [] v p t = ([], tt, refl)
init_args-IsWritten (some []) argv v p t = absurd p
init_args-IsWritten (some (c ∷ key)) [] v p t = ((c ∷ key, none) ∷ [], (tt, tt), refl)
init_args-IsWritten none (s ∷ argv) v p t = elim (Bool-cases (is_key s)) [
  | inl k ↦ key-IsWritten none s argv v p k t (init_args-IsWritten (some (behind s)) argv v)
  | inr k ↦ absurd (true-false (rw k at t) refl)
]
init_args-IsWritten (some (c ∷ key)) (s ∷ argv) v p t = elim (Bool-cases (is_key s)) [
  | inl k ↦
      key-IsWritten (some (c ∷ key)) s argv v p k t
        (init_args-IsWritten (some (behind s)) argv (add (c ∷ key) [] v))
  | inr k ↦
      let (l, h, e) = init_args-IsWritten none argv (add (c ∷ key) s v) tt (rw k at t) in
      ((c ∷ key, some s) ∷ l, (k, h), ap (λ (r : List Text). (b'-' ∷ c ∷ key) ∷ s ∷ r) e)
]

-- Arguments that are taken are written from keys that are not empty and values that do not begin with
-- a dash, and the environment is the one in which these are added in their order.
pub written-init_args :
    (argv : List Text) (v : Env)
    → (init_args none argv v).0 ≡ true
    → (l : List Given) × All IsGiven l
      × (written l ≡ argv)
      × (init_args none argv v ≡ (true, add_all l v))
written-init_args argv v t =
    let (l, h, e) = init_args-IsWritten none argv v tt t in
    (l, h, e, ap (λ (r : List Text). init_args none r v) (sym e) ∙ init_args-written l v h)
