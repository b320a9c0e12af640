-- ===== src/Config.antt =====
-- src/config.h and src/config.cpp: the variables of the configuration and the files that set them. A
-- parsed file of YAML is a tree, and its parser a parameter, as are `emit`, which prints a part of it,
-- `decimal` and `tolower`. The locks are not modelled.
pub mod Names
pub mod Loaded
pub mod Files
mod Tests
use net_ninja.Common.{
  ℕ, suc, ◌+◌, ◌%◌, ◌^◌, Bool, true, false, not, ◌&&◌, ◌||◌, Option, none, some, List, [], ◌∷◌,
  ◌++◌, map, if◌then◌else◌, ◌==◌, leb,
}
use net_ninja.Http.{Text, codes, same_text}

-- A variable: its value, and the keys of its listeners.
pub record ConfigVar {ℓ} (A : Type ℓ) : Type ℓ where
  pub m_val : A
  pub m_cbs : List ℕ

-- The calls of the listeners, each with its key, the old and the new value.
abbrev pub Notice {ℓ} : Type ℓ → Type ℓ
Notice A = ℕ × A × A

module _ {ℓ} {A : Type ℓ} (same_value : A → A → Bool) where
  unfoldable pub set_value : A → ConfigVar A → ConfigVar A × List (Notice A)
  set_value v c =
      if same_value c.m_val v
      then (c, [])
      else (record c { m_val = v }, map (λ (k : ℕ). (k, c.m_val, v)) c.m_cbs)

  -- `fromString`. The conversion gives none where it throws a bad_lexical_cast.
  unfoldable pub from_string :
      (Text → Option A) → Text → ConfigVar A → Bool × ConfigVar A × List (Notice A)
  from_string from_str s c = elim (from_str s) [
    | none ↦ (false, c, [])
    | some v ↦ let (c', calls) = set_value v c in (true, c', calls)
  ]

-- The map of listeners is ordered by their keys.
unfoldable pub insert_key : ℕ → List ℕ → List ℕ
insert_key k [] = k ∷ []
insert_key k (l ∷ m) =
    let rest = insert_key k m in if k == l then l ∷ m else if leb k l then k ∷ l ∷ m else l ∷ rest

unfoldable pub erase_key : ℕ → List ℕ → List ℕ
erase_key k [] = []
erase_key k (l ∷ m) = let rest = erase_key k m in if l == k then m else l ∷ rest

-- `addListener`, with the static counter of the type, 32 bits wide.
unfoldable pub add_listener {ℓ} : {A : Type ℓ} → ℕ → ConfigVar A → ℕ × ConfigVar A
add_listener key c =
    let key' = (key + 1) % 2 ^ 32 in (key', record c { m_cbs = insert_key key' c.m_cbs })

unfoldable pub delete_listener {ℓ} : {A : Type ℓ} → ℕ → ConfigVar A → ConfigVar A
delete_listener key c = record c { m_cbs = erase_key key c.m_cbs }

unfoldable pub clear_listener {ℓ} : {A : Type ℓ} → ConfigVar A → ConfigVar A
clear_listener c = record c { m_cbs = [] }

-- A node of YAML.
mutual
  pub data Node : Type 0 where
    null : Node
    scalar : Text → Node
    mapping : Fields → Node
    sequence : Items → Node

  pub data Fields : Type 0 where
    end : Fields
    field : Text → Node → Fields → Fields

  pub data Items : Type 0 where
    nil : Items
    cons : Node → Items → Items

abbrev pub is_name_byte : ℕ → Bool
is_name_byte c = leb b'a' c && leb c b'z' || c == b'.' || c == b'_' || leb b'0' c && leb c b'9'

-- `find_first_not_of(...) == npos`.
unfoldable pub is_name : Text → Bool
is_name [] = true
is_name (c ∷ s) = is_name_byte c && is_name s

abbrev pub child : Text → Text → Text
child [] key = key
child (c ∷ prefix) key = c ∷ prefix ++ codes "." ++ key

module _ (decimal : ℕ → Text) where
  unfoldable mutual
    pub list_all_member : Text → Node → List (Text × Node)
    list_all_member prefix null = if is_name prefix then (prefix, null) ∷ [] else []
    list_all_member prefix (scalar s) = if is_name prefix then (prefix, scalar s) ∷ [] else []
    list_all_member prefix (mapping fs) =
        let below = list_fields prefix fs in
        if is_name prefix then (prefix, mapping fs) ∷ below else []
    list_all_member prefix (sequence xs) =
        let below = list_items prefix 0 xs in
        if is_name prefix then (prefix, sequence xs) ∷ below else []

    -- The loops over the members of a mapping and of a sequence.
    pub list_fields : Text → Fields → List (Text × Node)
    list_fields prefix end = []
    list_fields prefix (field key node fs) =
        list_all_member (child prefix key) node ++ list_fields prefix fs

    pub list_items : Text → ℕ → Items → List (Text × Node)
    list_items prefix i nil = []
    list_items prefix i (cons node xs) =
        list_all_member (prefix ++ codes "." ++ decimal i) node ++ list_items prefix (suc i) xs

-- `GetDatas()`: the variables by their names. A variable is of any type, and `from_string` its member,
-- which gives none where it throws, as the conversions do for some texts, and a listener may; the
-- variable stays as it was then.
module _ {V : Type 0} where
  unfoldable pub lookup_base : Text → List (Text × V) → Option V
  lookup_base name [] = none
  lookup_base name (e ∷ m) =
      let rest = lookup_base name m in if same_text e.0 name then some e.1 else rest

  -- The variable of the name is changed through its pointer.
  unfoldable pub change : Text → (V → V) → List (Text × V) → List (Text × V)
  change name f [] = []
  change name f (e ∷ m) =
      let rest = change name f m in if same_text e.0 name then (e.0, f e.1) ∷ m else e ∷ rest

  module _ (tolower : ℕ → ℕ) (emit : Node → Text) (from_string : V → Text → Option V) where
    -- What `fromString` is given of a node.
    abbrev pub node_text : Node → Text
    node_text (scalar s) = s
    node_text null = emit null
    node_text (mapping fs) = emit (mapping fs)
    node_text (sequence xs) = emit (sequence xs)

    -- The loop of `LoadFromYaml`: whether it ends without an exception, and the variables.
    unfoldable pub load_nodes : List (Text × Node) → List (Text × V) → Bool × List (Text × V)
    load_nodes [] datas = (true, datas)
    load_nodes (([], node) ∷ l) datas = load_nodes l datas
    load_nodes ((c ∷ key, node) ∷ l) datas = elim (lookup_base (map tolower (c ∷ key)) datas) [
      | none ↦ load_nodes l datas
      | some v ↦ elim (from_string v (node_text node)) [
        | none ↦ (false, datas)
        | some v' ↦ load_nodes l (change (map tolower (c ∷ key)) (λ w. v') datas)
      ]
    ]

    unfoldable pub load_from_yaml : (ℕ → Text) → Node → List (Text × V) → Bool × List (Text × V)
    load_from_yaml decimal root datas = load_nodes (list_all_member decimal [] root) datas

    -- The loop of `LoadFromConfDir` over the files, with the times at which they were changed, as they
    -- were seen last and as `lstat` gives them. The parser gives none where it throws. What is thrown
    -- is caught for each file. The files that are read are listed, in their order.
    unfoldable pub load_files :
        (ℕ → Text)
        → (Text → Option Node)
        → (Text → ℕ)
        → Bool
        → List Text
        → (Text → ℕ) × List (Text × V)
        → List Text × ((Text → ℕ) × List (Text × V))
    load_files decimal load_file mtime force [] s = ([], s)
    load_files decimal load_file mtime force (i ∷ files) (seen, datas) =
        let seen' : Text → ℕ = λ f. if same_text f i then mtime i else seen f in
        let datas' : List (Text × V) = elim (load_file i) [
          | none ↦ datas
          | some root ↦ (load_from_yaml decimal root datas).1
        ] in
        let skipped = load_files decimal load_file mtime force files (seen, datas) in
        let loaded = load_files decimal load_file mtime force files (seen', datas') in
        if not force && seen i == mtime i then skipped else (i ∷ loaded.0, loaded.1)

-- What `Lookup` with a default gives: the variable, a null pointer where its type is another, or a
-- std::invalid_argument.
pub data Looked (V : Type 0) : Type 0 where
  found : V → Looked V
  other_type : Looked V
  invalid_argument : Looked V

-- `is_type` is the cast to the type that is asked for, `made` a new variable of it.
unfoldable pub lookup_or_make :
    {V : Type 0} → (ℕ → ℕ) → (V → Bool) → V → Text → List (Text × V) → Looked V × List (Text × V)
lookup_or_make tolower is_type made name datas = elim (lookup_base (map tolower name) datas) [
  | some v ↦ (if is_type v then Looked.found v else Looked.other_type, datas)
  | none ↦
      if is_name name
      then (Looked.found made, datas ++ (map tolower name, made) ∷ [])
      else (Looked.invalid_argument, datas)
]
