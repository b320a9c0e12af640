-- ===== src/Config/Loaded.antt =====
-- The variables of src/config.cpp after a file is loaded.
use net_ninja.Common.{
  ℕ, ◌≡◌, refl, sym, ap, ◌∙◌, inl, inr, Bool, true, false, ◌&&◌, Option, none, some, List, [], ◌∷◌,
  map, if◌then◌else◌, Bool-cases, true-false, Option-cases, ◌⊎◌, ◌++◌,
}
use net_ninja.Http.{Text, same_text}
use net_ninja.Http.Names.{same_text_eq, same_text_self}
use net_ninja.Config.{
  Node, is_name, is_name_byte, list_all_member, lookup_base, change, node_text, load_nodes,
  load_from_yaml,
}
use net_ninja.Config.Names.{IsNamed, list_all_member-IsNamed}

-- `tolower` of C leaves the bytes of a valid name as they are.
abbrev pub IsLower : (ℕ → ℕ) → Type 0
IsLower tolower = (c : ℕ) → is_name_byte c ≡ true → tolower c ≡ c

-- The nodes of a name, in their order.
unfoldable pub nodes_of : Text → List (Text × Node) → List Node
nodes_of name [] = []
nodes_of name (([], node) ∷ l) = nodes_of name l
nodes_of name ((c ∷ key, node) ∷ l) =
    let rest = nodes_of name l in if same_text (c ∷ key) name then node ∷ rest else rest

and_true : (a b : Bool) → (a && b) ≡ true → (a ≡ true) × (b ≡ true)
and_true true b h = (refl, h)
and_true false b h = cc

lower-is_name :
    (tolower : ℕ → ℕ) (key : Text) → IsLower tolower → is_name key ≡ true → map tolower key ≡ key
unfolding is_name
lower-is_name tolower [] h k = refl
lower-is_name tolower (c ∷ key) h k =
    let (a, b) = and_true (is_name_byte c) (is_name key) k in
    rw (h c a, lower-is_name tolower key h b) refl

apart :
    (k key name : Text)
    → same_text k key ≡ false
    → same_text k name ≡ true
    → same_text key name ≡ false
apart k key name h g = elim (Bool-cases (same_text key name)) [
  | inl e ↦
      let same : k ≡ key = same_text_eq k name g ∙ sym (same_text_eq key name e) in
      absurd (true-false (ap (same_text k) (sym same) ∙ same_text_self k) h)
  | inr e ↦ e
]

module _ {V : Type 0} where
  abbrev applied : (V → V) → Option V → Option V
  applied f o = elim o [ none ↦ none | some v ↦ some (f v) ]

  lookup_base-change :
      (key name : Text) (f : V → V) (m : List (Text × V))
      → lookup_base name (change key f m)
        ≡ (if same_text key name then applied f (lookup_base name m) else lookup_base name m)
  unfolding lookup_base change
  lookup_base-change key name f [] = elim (Bool-cases (same_text key name)) [
    | inl h ↦ rw h refl
    | inr h ↦ rw h refl
  ]
  lookup_base-change key name f (e ∷ m) = elim (Bool-cases (same_text e.0 key)) [
    | inl h ↦
        let same = ap (λ (t : Text). same_text t name) (same_text_eq e.0 key h) in
        elim (Bool-cases (same_text key name)) [
          | inl k ↦ rw (h, same, k) refl
          | inr k ↦ rw (h, same, k) refl
        ]
    | inr h ↦ elim (Bool-cases (same_text e.0 name)) [
      | inl k ↦ rw (h, k, apart e.0 key name h k) refl
      | inr k ↦ rw (h, k) (lookup_base-change key name f m)
    ]
  ]

  module _ (tolower : ℕ → ℕ) (emit : Node → Text) (from_string : V → Text → Option V) where
    -- `fromString` of the texts of the nodes, one after the other, where none throws.
    abbrev pub assigned : Option V → List Node → Option V
    assigned o [] = o
    assigned none (node ∷ l) = none
    assigned (some v) (node ∷ l) =
        assigned (from_string v (node_text tolower emit from_string node)) l

    -- The loop went through all nodes, or `fromString` of the next one threw.
    abbrev pub IsEnd : List (Text × Node) → Bool × List (Text × V) → Type 0
    IsEnd rest r =
        ((r.0 ≡ true) × (rest ≡ []))
        ⊎ ((r.0 ≡ false)
            × ((key : Text) × (node : Node) × (l : List (Text × Node)) × (v : V) × (rest
                  ≡ (key, node) ∷ l)
                × (lookup_base key r.1 ≡ some v)
                × (from_string v (node_text tolower emit from_string node) ≡ none)))

    -- The first nodes are assigned, each to the variable of its name.
    abbrev pub IsLoaded : List (Text × Node) → List (Text × V) → Bool × List (Text × V) → Type 0
    IsLoaded nodes datas r =
        (done : List (Text × Node)) × (rest : List (Text × Node)) × (nodes ≡ done ++ rest)
        × ((name : Text)
            → lookup_base name r.1 ≡ assigned (lookup_base name datas) (nodes_of name done))
        × IsEnd rest r

    assigned-none : (l : List Node) → assigned none l ≡ none
    assigned-none [] = refl
    assigned-none (node ∷ l) = refl

    -- A node without a variable changes nothing.
    missing-assigned :
        (key name : Text) (node : Node) (l : List Node) (datas : List (Text × V))
        → lookup_base key datas ≡ none
        → assigned (lookup_base name datas) l
          ≡ assigned (lookup_base name datas) (if same_text key name then node ∷ l else l)
    missing-assigned key name node l datas g = elim (Bool-cases (same_text key name)) [
      | inl h ↦
          let none_here : lookup_base name datas ≡ none =
            ap (λ (t : Text). lookup_base t datas) (sym (same_text_eq key name h)) ∙ g in
          rw (h, none_here) (assigned-none l)
      | inr h ↦ rw h refl
    ]

    changed-assigned :
        (key name : Text) (node : Node) (l : List Node) (datas : List (Text × V)) (v v' : V)
        → lookup_base key datas ≡ some v
        → from_string v (node_text tolower emit from_string node) ≡ some v'
        → assigned (lookup_base name (change key (λ w. v') datas)) l
          ≡ assigned (lookup_base name datas) (if same_text key name then node ∷ l else l)
    changed-assigned key name node l datas v v' g f = elim (Bool-cases (same_text key name)) [
      | inl h ↦
          let here : lookup_base name datas ≡ some v =
            ap (λ (t : Text). lookup_base t datas) (sym (same_text_eq key name h)) ∙ g in
          rw (lookup_base-change key name (λ w. v') datas, h, here)
            (ap (λ (o : Option V). assigned o l) (sym f))
      | inr h ↦ rw (lookup_base-change key name (λ w. v') datas, h) refl
    ]

    load_nodes-IsLoaded :
        (l : List (Text × Node)) (datas : List (Text × V))
        → IsLower tolower
        → IsNamed l
        → IsLoaded l datas (load_nodes tolower emit from_string l datas)
    unfolding load_nodes nodes_of
    load_nodes-IsLoaded [] datas h k = ([], [], refl, λ name. refl, inl (refl, refl))
    load_nodes-IsLoaded (([], node) ∷ l) datas h k =
        let (done, rest, e, a, end) = load_nodes-IsLoaded l datas h k.1 in
        (([], node) ∷ done, rest, ap (λ t. ([], node) ∷ t) e, a, end)
    load_nodes-IsLoaded ((c ∷ key, node) ∷ l) datas h k =
        elim (Option-cases (lookup_base (c ∷ key) datas)) [
          | inl g ↦
              let (done, rest, e, a, end) = load_nodes-IsLoaded l datas h k.1 in
              rw (load_nodes, lower, g)
                (
                  (c ∷ key, node) ∷ done,
                  rest,
                  ap (λ t. (c ∷ key, node) ∷ t) e,
                  λ name.
                      a name ∙ missing-assigned (c ∷ key) name node (nodes_of name done) datas g,
                  end,
                )
          | inr (v, g) ↦
              elim (Option-cases (from_string v (node_text tolower emit from_string node))) [
                | inl f ↦
                    rw (load_nodes, lower, g, f)
                      (
                        [],
                        (c ∷ key, node) ∷ l,
                        refl,
                        λ name. refl,
                        inr (refl, (c ∷ key, node, l, v, refl, g, f)),
                      )
                | inr (v', f) ↦
                    let (done, rest, e, a, end) =
                      load_nodes-IsLoaded l (change (map tolower (c ∷ key)) (λ w. v') datas) h
                        k.1 in
                    rw (load_nodes, lower, g, f)
                      (
                        (c ∷ key, node) ∷ done,
                        rest,
                        ap (λ t. (c ∷ key, node) ∷ t) e,
                        λ name.
                            a name
                            ∙ ap
                                (λ (t : Text).
                                  assigned (lookup_base name (change t (λ w. v') datas))
                                    (nodes_of name done))
                                lower
                            ∙ changed-assigned (c ∷ key) name node (nodes_of name done) datas v v' g
                                f,
                        end,
                      )
              ]
        ]
      where
        lower : map tolower (c ∷ key) ≡ c ∷ key
        lower = lower-is_name tolower (c ∷ key) h k.0

    -- Where `tolower` leaves lower-case letters, digits, dots and underscores as they are, the nodes that
    -- are listed fall into the first ones and the rest. Every variable is given the texts of the first
    -- ones that are listed under its name, in their order, and no other text; a name that the table
    -- does not have stays without a variable. Either no node is left, or `fromString` of the first
    -- node that is left threw, and the loading ends with that.
    pub load_from_yaml-assigned :
        (decimal : ℕ → Text) (root : Node) (datas : List (Text × V))
        → IsLower tolower
        → IsLoaded
            (list_all_member decimal [] root)
            datas
            (load_from_yaml tolower emit from_string decimal root datas)
    unfolding load_from_yaml
    load_from_yaml-assigned decimal root datas h =
        load_nodes-IsLoaded (list_all_member decimal [] root) datas h
          (list_all_member-IsNamed decimal [] root)
