-- ===== src/Servlet/Table.antt =====
-- The two tables of src/http/http_servlet.cpp: each has a path once, after any calls.
use net_ninja.Common.{
  ℕ, ◌≡◌, refl, ap, ◌∙◌, inl, inr, true, false, List, [], ◌∷◌, ◌++◌, Option, none, some, arith,
  if◌then◌else◌, Bool-cases,
}
use mathlib.Core.Path.{subst}
use net_ninja.Servlet.{
  Uri, Servlet, Creator, ServletDispatch, same_uri, new_dispatch, assign, erase_first, find,
  add_servlet_creator, add_servlet, add_servlet_callback, add_glob_servlet_creator,
  add_glob_servlet, add_glob_servlet_callback, del_servlet, del_glob_servlet, set_default,
}

pub same_uri_self : (u : Uri) → same_uri u u ≡ true
unfolding same_uri
same_uri_self [] = refl
same_uri_self (x ∷ u) = ground (arith, same_uri_self u)

pub same_uri_eq : (u v : Uri) → same_uri u v ≡ true → u ≡ v
unfolding same_uri
same_uri_eq [] [] h = refl
same_uri_eq [] (y ∷ v) h = cc
same_uri_eq (x ∷ u) [] h = cc
same_uri_eq (x ∷ u) (y ∷ v) h =
    let a : x ≡ y = ground arith in let b : u ≡ v = same_uri_eq u v (ground arith) in cc

pub same_uri_sym : (u v : Uri) → same_uri u v ≡ true → same_uri v u ≡ true
same_uri_sym u v h = rw (same_uri_eq u v h) (same_uri_self v)

pub same_uri-false : (u v : Uri) → same_uri u v ≡ false → same_uri v u ≡ false
same_uri-false u v h = ground (arith, same_uri_sym v u)

pub same_uri_trans : (u v w : Uri) → same_uri u v ≡ true → same_uri u w ≡ same_uri v w
same_uri_trans u v w h = ap (λ t. same_uri t w) (same_uri_eq u v h)

-- No pair of the list has the name.
abbrev pub IsAbsent : Uri → List (Uri × Creator) → Type 0
IsAbsent u [] = Unit {0}
IsAbsent u (e ∷ l) = (same_uri e.0 u ≡ false) × IsAbsent u l

abbrev pub IsKeyed : List (Uri × Creator) → Type 0
IsKeyed [] = Unit {0}
IsKeyed (e ∷ l) = IsAbsent e.0 l × IsKeyed l

pub find-IsAbsent : (u : Uri) (l : List (Uri × Creator)) → IsAbsent u l → find u l ≡ none
unfolding find
find-IsAbsent u [] h = refl
find-IsAbsent u (e ∷ l) h = rw (h.0, find-IsAbsent u l h.1) refl

assign-IsAbsent :
    (u v : Uri) (c : Creator) (l : List (Uri × Creator))
    → same_uri u v ≡ false
    → IsAbsent v l
    → IsAbsent v (assign u c l)
unfolding assign
assign-IsAbsent u v c [] n h = (n, tt)
assign-IsAbsent u v c (e ∷ l) n h = ground (arith, assign-IsAbsent u v c l)

erase_first-IsAbsent :
    (u v : Uri) (l : List (Uri × Creator)) → IsAbsent v l → IsAbsent v (erase_first u l)
unfolding erase_first
erase_first-IsAbsent u v [] h = tt
erase_first-IsAbsent u v (e ∷ l) h = ground (arith, erase_first-IsAbsent u v l)

pub find-assign :
    (u v : Uri) (c : Creator) (l : List (Uri × Creator))
    → find v (assign u c l) ≡ (if same_uri u v then some c else find v l)
unfolding find assign
find-assign u v c [] = refl
find-assign u v c (e ∷ l) = elim (Bool-cases (same_uri e.0 u)) [
  | inl h ↦ rw (h, same_uri_trans e.0 u v h) (ground arith)
  | inr h ↦
      rw (h, find-assign u v c l)
        (ground (
          arith,
          same_uri_eq u v,
          same_uri_trans e.0 u v,
          same_uri_sym u v,
          same_uri_sym e.0 v,
          same_uri_trans u v e.0,
          same_uri_sym u e.0,
        ))
]

erase_first-gone : (u : Uri) (l : List (Uri × Creator)) → IsKeyed l → IsAbsent u (erase_first u l)
unfolding erase_first
erase_first-gone u [] h = tt
erase_first-gone u (e ∷ l) h = elim (Bool-cases (same_uri e.0 u)) [
  | inl k ↦ rw k (subst (λ t. IsAbsent t l) (same_uri_eq e.0 u k) h.0)
  | inr k ↦ rw k (k, erase_first-gone u l h.1)
]

assign-IsKeyed :
    (u : Uri) (c : Creator) (l : List (Uri × Creator)) → IsKeyed l → IsKeyed (assign u c l)
unfolding assign
assign-IsKeyed u c [] h = (tt, tt)
assign-IsKeyed u c (e ∷ l) h = elim (Bool-cases (same_uri e.0 u)) [
  | inl k ↦ rw k h
  | inr k ↦ rw k (assign-IsAbsent u e.0 c l (same_uri-false e.0 u k) h.0, assign-IsKeyed u c l h.1)
]

erase_first-IsKeyed : (u : Uri) (l : List (Uri × Creator)) → IsKeyed l → IsKeyed (erase_first u l)
unfolding erase_first
erase_first-IsKeyed u [] h = tt
erase_first-IsKeyed u (e ∷ l) h =
    ground (arith, erase_first-IsKeyed u l, erase_first-IsAbsent u e.0 l)

append-IsAbsent :
    (u v : Uri) (c : Creator) (l : List (Uri × Creator))
    → same_uri u v ≡ false
    → IsAbsent v l
    → IsAbsent v (l ++ (u, c) ∷ [])
append-IsAbsent u v c [] n h = (n, tt)
append-IsAbsent u v c (e ∷ l) n h = (h.0, append-IsAbsent u v c l n h.1)

append-IsKeyed :
    (u : Uri) (c : Creator) (l : List (Uri × Creator))
    → IsAbsent u l
    → IsKeyed l
    → IsKeyed (l ++ (u, c) ∷ [])
append-IsKeyed u c [] a h = (tt, tt)
append-IsKeyed u c (e ∷ l) a h =
    (append-IsAbsent u e.0 c l (same_uri-false e.0 u a.0) h.0, append-IsKeyed u c l a.1 h.1)

replace-IsKeyed :
    (u : Uri) (c : Creator) (l : List (Uri × Creator))
    → IsKeyed l
    → IsKeyed (erase_first u l ++ (u, c) ∷ [])
replace-IsKeyed u c l h =
    append-IsKeyed u c (erase_first u l) (erase_first-gone u l h) (erase_first-IsKeyed u l h)

pub find-erase_first :
    (u v : Uri) (l : List (Uri × Creator))
    → IsKeyed l
    → find v (erase_first u l) ≡ (if same_uri u v then none else find v l)
unfolding find erase_first
find-erase_first u v [] h = ground arith
find-erase_first u v (e ∷ l) h = elim (Bool-cases (same_uri e.0 u)) [
  | inl k ↦
      rw (k, same_uri_trans e.0 u v k)
        (elim (Bool-cases (same_uri u v)) [
          | inl j ↦ rw j (
              find-IsAbsent v l
                (subst (λ t. IsAbsent t l) (same_uri_eq e.0 u k ∙ same_uri_eq u v j) h.0))
          | inr j ↦ rw j refl
        ])
  | inr k ↦
      rw (k, find-erase_first u v l h.1)
        (ground (
          arith,
          same_uri_trans u v e.0,
          same_uri_sym u e.0,
          same_uri_sym u v,
          same_uri_trans e.0 v u,
        ))
]

pub find-append :
    (u v : Uri) (c : Creator) (l : List (Uri × Creator))
    → find v (l ++ (u, c) ∷ [])
      ≡ elim (find v l) [ some d ↦ some d | none ↦ if same_uri u v then some c else none ]
unfolding find
find-append u v c [] = refl
find-append u v c (e ∷ l) = elim (Bool-cases (same_uri e.0 v)) [
  | inl k ↦ rw k refl
  | inr k ↦ rw k (find-append u v c l)
]

-- One call that changes the table.
pub data Step (d : ServletDispatch) : ServletDispatch → Type 0 where
  servlet : (u : Uri) (s : Servlet) → Step d (add_servlet d u s)
  callback : (u : Uri) (f : ℕ) → Step d (add_servlet_callback d u f)
  creator : (u : Uri) (c : Creator) → Step d (add_servlet_creator d u c)
  glob : (u : Uri) (s : Servlet) → Step d (add_glob_servlet d u s)
  glob_callback : (u : Uri) (f : ℕ) → Step d (add_glob_servlet_callback d u f)
  glob_creator : (u : Uri) (c : Creator) → Step d (add_glob_servlet_creator d u c)
  deleted : (u : Uri) → Step d (del_servlet d u)
  glob_deleted : (u : Uri) → Step d (del_glob_servlet d u)
  default_set : (s : Option Servlet) → Step d (set_default d s)

pub data IsReachable : ServletDispatch → Type 0 where
  start : IsReachable new_dispatch
  step : (d d' : ServletDispatch) → IsReachable d → Step d d' → IsReachable d'

Step-IsKeyed :
    (d d' : ServletDispatch)
    → IsKeyed d.datas × IsKeyed d.globs
    → Step d d'
    → IsKeyed d'.datas × IsKeyed d'.globs
unfolding add_servlet add_servlet_callback add_servlet_creator add_glob_servlet
    add_glob_servlet_callback add_glob_servlet_creator del_servlet del_glob_servlet set_default
Step-IsKeyed d d' h (Step.servlet u s) = (assign-IsKeyed u (Creator.hold s) d.datas h.0, h.1)
Step-IsKeyed d d' h (Step.callback u f) = (assign-IsKeyed u _ d.datas h.0, h.1)
Step-IsKeyed d d' h (Step.creator u c) = (assign-IsKeyed u c d.datas h.0, h.1)
Step-IsKeyed d d' h (Step.glob u s) = (h.0, replace-IsKeyed u _ d.globs h.1)
Step-IsKeyed d d' h (Step.glob_callback u f) = (h.0, replace-IsKeyed u _ d.globs h.1)
Step-IsKeyed d d' h (Step.glob_creator u c) = (h.0, replace-IsKeyed u c d.globs h.1)
Step-IsKeyed d d' h (Step.deleted u) = (erase_first-IsKeyed u d.datas h.0, h.1)
Step-IsKeyed d d' h (Step.glob_deleted u) = (h.0, erase_first-IsKeyed u d.globs h.1)
Step-IsKeyed d d' h (Step.default_set s) = h

-- After any calls, each of the two tables has a path at most once.
pub reachable-IsKeyed : (d : ServletDispatch) → IsReachable d → IsKeyed d.datas × IsKeyed d.globs
unfolding new_dispatch
reachable-IsKeyed d IsReachable.start = (tt, tt)
reachable-IsKeyed d (IsReachable.step c d' r s) = Step-IsKeyed c d' (reachable-IsKeyed c r) s
