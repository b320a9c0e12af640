-- ===== src/Config/Names.antt =====
-- The names of the nodes that src/config.cpp lists.
use net_ninja.Common.{ℕ, suc, ◌≡◌, inl, inr, true, List, [], ◌∷◌, ◌++◌, All, Bool-cases}
use net_ninja.Http.{Text, codes}
use net_ninja.Config.{
  Node, Fields, Items, null, scalar, mapping, sequence, end, field, nil, cons, is_name, child,
  list_all_member, list_fields, list_items,
}

-- The name of a node that is listed is a valid one.
abbrev pub IsNamed : List (Text × Node) → Type 0
IsNamed l = All (λ e. is_name e.0 ≡ true) l

append-IsNamed : (l m : List (Text × Node)) → IsNamed l → IsNamed m → IsNamed (l ++ m)
append-IsNamed [] m h k = k
append-IsNamed (e ∷ l) m h k = (h.0, append-IsNamed l m h.1 k)

module _ (decimal : ℕ → Text) where
  mutual
    unfolding list_all_member list_fields list_items

    pub list_all_member-IsNamed :
        (prefix : Text) (node : Node) → IsNamed (list_all_member decimal prefix node)
    list_all_member-IsNamed prefix null = elim (Bool-cases (is_name prefix)) [
      | inl e ↦ rw e (e, tt)
      | inr e ↦ rw e tt
    ]
    list_all_member-IsNamed prefix (scalar s) = elim (Bool-cases (is_name prefix)) [
      | inl e ↦ rw e (e, tt)
      | inr e ↦ rw e tt
    ]
    list_all_member-IsNamed prefix (mapping fs) = elim (Bool-cases (is_name prefix)) [
      | inl e ↦ rw e (e, list_fields-IsNamed prefix fs)
      | inr e ↦ rw e tt
    ]
    list_all_member-IsNamed prefix (sequence xs) = elim (Bool-cases (is_name prefix)) [
      | inl e ↦ rw e (e, list_items-IsNamed prefix 0 xs)
      | inr e ↦ rw e tt
    ]

    list_fields-IsNamed : (prefix : Text) (fs : Fields) → IsNamed (list_fields decimal prefix fs)
    list_fields-IsNamed prefix end = tt
    list_fields-IsNamed prefix (field key node fs) =
        append-IsNamed (list_all_member decimal (child prefix key) node)
          (list_fields decimal prefix fs) (list_all_member-IsNamed (child prefix key) node)
          (list_fields-IsNamed prefix fs)

    list_items-IsNamed :
        (prefix : Text) (i : ℕ) (xs : Items) → IsNamed (list_items decimal prefix i xs)
    list_items-IsNamed prefix i nil = tt
    list_items-IsNamed prefix i (cons node xs) =
        append-IsNamed (list_all_member decimal (prefix ++ codes "." ++ decimal i) node)
          (list_items decimal prefix (suc i) xs)
          (list_all_member-IsNamed (prefix ++ codes "." ++ decimal i) node)
          (list_items-IsNamed prefix (suc i) xs)
