-- ===== src/Servlet/Match.antt =====
-- What a path is answered by, in src/http/http_servlet.cpp, after each kind of call.
use net_ninja.Common.{
  ◌≡◌, refl, sym, inl, inr, Bool, true, false, List, [], ◌∷◌, ◌++◌, Option, none, some,
  if◌then◌else◌, Bool-cases,
}
use mathlib.Core.Path.{subst}
use net_ninja.Servlet.{
  Uri, Servlet, Creator, get, ServletDispatch, same_uri, erase_first, find, add_servlet,
  add_glob_servlet, del_servlet, del_glob_servlet, made_by, get_glob_servlet, first_match,
  get_matched_servlet,
}
use net_ninja.Servlet.Table.{
  IsAbsent, IsKeyed, IsReachable, reachable-IsKeyed, find-assign, find-erase_first, find-append,
  same_uri_eq,
}

-- The pairs of other names, in their order.
unfoldable pub others : Uri → List (Uri × Creator) → List (Uri × Creator)
others u [] = []
others u (e ∷ l) = let rest = others u l in if same_uri e.0 u then rest else e ∷ rest

others-IsAbsent : (u : Uri) (l : List (Uri × Creator)) → IsAbsent u l → others u l ≡ l
unfolding others
others-IsAbsent u [] h = refl
others-IsAbsent u (e ∷ l) h = rw (h.0, others-IsAbsent u l h.1) refl

erase_first-others : (u : Uri) (l : List (Uri × Creator)) → IsKeyed l → erase_first u l ≡ others u l
unfolding others erase_first
erase_first-others u [] h = refl
erase_first-others u (e ∷ l) h = elim (Bool-cases (same_uri e.0 u)) [
  | inl k ↦ rw k (sym (others-IsAbsent u l (subst (λ t. IsAbsent t l) (same_uri_eq e.0 u k) h.0)))
  | inr k ↦ rw (k, erase_first-others u l h.1) refl
]

made_by-append :
    (b : Bool) (o : Option Creator) (c : Creator)
    → made_by (elim (if b then none else o) [ some d ↦ some d | none ↦ if b then some c else none ])
      ≡ (if b then some (get c) else made_by o)
made_by-append true o c = refl
made_by-append false none c = refl
made_by-append false (some d) c = refl

made_by_if :
    (b : Bool) (o : Option Creator)
    → made_by (if b then none else o) ≡ (if b then none else made_by o)
made_by_if true o = refl
made_by_if false o = refl

-- After any calls, a glob that is added is found under its name in place of the one that was, one
-- that is deleted is not found any more, and no other name is touched.
pub get_glob_servlet-add_del :
    (d : ServletDispatch) (u v : Uri) (s : Servlet)
    → IsReachable d
    → (get_glob_servlet (add_glob_servlet d u s) v
        ≡ (if same_uri u v then some s else get_glob_servlet d v))
      × (get_glob_servlet (del_glob_servlet d u) v
          ≡ (if same_uri u v then none else get_glob_servlet d v))
unfolding get_glob_servlet add_glob_servlet del_glob_servlet get
get_glob_servlet-add_del d u v s r =
    let k = (reachable-IsKeyed d r).1 in
    rw (find-append u v (Creator.hold s) (erase_first u d.globs), find-erase_first u v d.globs k)
      (
        made_by-append (same_uri u v) (find v d.globs) (Creator.hold s),
        made_by_if (same_uri u v) (find v d.globs),
      )

module _ (matches : Uri → Uri → Bool) where
  first_match-append :
      (u v : Uri) (c : Creator) (l : List (Uri × Creator))
      → first_match matches v (l ++ (u, c) ∷ []) ≡ elim (first_match matches v l) [
        | some d ↦ some d
        | none ↦ if matches u v then some c else none
      ]
  unfolding first_match
  first_match-append u v c [] = refl
  first_match-append u v c (e ∷ l) = elim (Bool-cases (matches e.0 v)) [
    | inl k ↦ rw k refl
    | inr k ↦ rw k (first_match-append u v c l)
  ]

  -- What a path that is not in the exact table is answered by.
  abbrev pub by_glob : List (Uri × Creator) → Option Servlet → Uri → Option Servlet
  by_glob globs fallback v = elim (first_match matches v globs) [
    | some c ↦ some (get c)
    | none ↦ fallback
  ]

  abbrev answer : Option Creator → Option Creator → Option Servlet → Option Servlet
  answer (some c) o fallback = some (get c)
  answer none (some c) fallback = some (get c)
  answer none none fallback = fallback

  answer_eq :
      (o p : Option Creator) (fallback : Option Servlet)
      → elim o [ some c ↦ some (get c) | none ↦ elim p [ some c ↦ some (get c) | none ↦ fallback ] ]
        ≡ answer o p fallback
  answer_eq (some c) p fallback = refl
  answer_eq none (some c) fallback = refl
  answer_eq none none fallback = refl

  get_matched-answer :
      (d : ServletDispatch) (v : Uri)
      → get_matched_servlet matches d v
        ≡ answer (find v d.datas) (first_match matches v d.globs) d.default_servlet
  unfolding get_matched_servlet
  get_matched-answer d v =
      answer_eq (find v d.datas) (first_match matches v d.globs) d.default_servlet

  answer_if :
      (b : Bool) (c : Creator) (o p : Option Creator) (f : Option Servlet)
      → answer (if b then some c else o) p f ≡ (if b then some (get c) else answer o p f)
  answer_if true c o p f = refl
  answer_if false c o p f = refl

  answer_del :
      (b : Bool) (o p : Option Creator) (f : Option Servlet)
      → answer (if b then none else o) p f
        ≡ (if b then elim p [ some c ↦ some (get c) | none ↦ f ] else answer o p f)
  answer_del true o (some c) f = refl
  answer_del true o none f = refl
  answer_del false o p f = refl

  answer_append :
      (b : Bool) (s : Servlet) (o p : Option Creator) (f : Option Servlet)
      → answer o (elim p [ some d ↦ some d | none ↦ if b then some (Creator.hold s) else none ]) f
        ≡ elim o [
          | some c ↦ some (get c)
          | none ↦ elim p [ some c ↦ some (get c) | none ↦ if b then some s else f ]
        ]
  unfolding get
  answer_append b s (some c) p f = refl
  answer_append b s none (some d) f = refl
  answer_append true s none none f = refl
  answer_append false s none none f = refl

  -- Of an added path the servlet is the one that was added, whatever the globs; of every other path it
  -- is the one that it was.
  pub get_matched_servlet-add_servlet :
      (d : ServletDispatch) (u v : Uri) (s : Servlet)
      → get_matched_servlet matches (add_servlet d u s) v
        ≡ (if same_uri u v then some s else get_matched_servlet matches d v)
  unfolding add_servlet get
  get_matched_servlet-add_servlet d u v s =
      rw
        (
          get_matched-answer (add_servlet d u s) v,
          get_matched-answer d v,
          find-assign u v (Creator.hold s) d.datas,
        )
        (answer_if (same_uri u v) (Creator.hold s) (find v d.datas) _ _)

  -- After any calls, of a deleted path the servlet is that of the first glob that matches, or the
  -- default; of every other path it is the one that it was.
  pub get_matched_servlet-del_servlet :
      (d : ServletDispatch) (u v : Uri)
      → IsReachable d
      → get_matched_servlet matches (del_servlet d u) v ≡ (
          if same_uri u v
          then by_glob d.globs d.default_servlet v
          else get_matched_servlet matches d v)
  unfolding del_servlet
  get_matched_servlet-del_servlet d u v r =
      rw
        (
          get_matched-answer (del_servlet d u) v,
          get_matched-answer d v,
          find-erase_first u v d.datas (reachable-IsKeyed d r).0,
        )
        (answer_del (same_uri u v) (find v d.datas) (first_match matches v d.globs)
          d.default_servlet)

  -- After any calls, an added glob serves the paths that it matches, that are not in the exact
  -- table and that no glob of another name matches; every other path is served as if the glob of
  -- that name, old or new, were not there.
  pub get_matched_servlet-add_glob_servlet :
      (d : ServletDispatch) (u v : Uri) (s : Servlet)
      → IsReachable d
      → get_matched_servlet matches (add_glob_servlet d u s) v ≡ elim (find v d.datas) [
        | some c ↦ some (get c)
        | none ↦ by_glob (others u d.globs) (if matches u v then some s else d.default_servlet) v
      ]
  unfolding add_glob_servlet
  get_matched_servlet-add_glob_servlet d u v s r =
      rw
        (
          get_matched-answer (add_glob_servlet d u s) v,
          erase_first-others u d.globs (reachable-IsKeyed d r).1,
          first_match-append u v (Creator.hold s) (others u d.globs),
        )
        (answer_append (matches u v) s (find v d.datas) (first_match matches v (others u d.globs))
          d.default_servlet)
