-- ===== src/Http/Headers.antt =====
-- `MapType` of src/http/http.h: a std::map that is ordered by CaseInsensitiveLess, as its pairs in
-- order. `strcasecmp` of the C library is a parameter, and so is `boost::lexical_cast`.
use net_ninja.Common.{Bool, true, false, List, [], ◌∷◌, Option, none, some, if◌then◌else◌}
use net_ninja.Http.{Text, c_str}

-- The sign of the int that strcasecmp returns.
pub data Sign : Type 0 where
  below same above : Sign

abbrev pub is_below : Sign → Bool
is_below Sign.below = true
is_below Sign.same = false
is_below Sign.above = false

abbrev pub is_same : Sign → Bool
is_same Sign.below = false
is_same Sign.same = true
is_same Sign.above = false

abbrev pub flip : Sign → Sign
flip Sign.below = Sign.above
flip Sign.same = Sign.same
flip Sign.above = Sign.below

abbrev pub MapType : Type 0
MapType = List (Text × Text)

module _ (strcasecmp : Text → Text → Sign) where
  unfoldable pub case_insensitive_less : Text → Text → Bool
  case_insensitive_less lhs rhs = is_below (strcasecmp (c_str lhs) (c_str rhs))

  -- Keys of which none is less than the other are one key to the map.
  unfoldable pub equivalent : Text → Text → Bool
  equivalent k l =
      if case_insensitive_less k l then false else if case_insensitive_less l k then false else true

  -- `m.find(key)`, and what it points to.
  unfoldable pub find : Text → MapType → Option Text
  find k [] = none
  find k (e ∷ m) = let rest = find k m in if equivalent k e.0 then some e.1 else rest

  -- `m[key] = val`: the key that is there keeps its spelling.
  unfoldable pub assign : Text → Text → MapType → MapType
  assign k v [] = (k, v) ∷ []
  assign k v (e ∷ m) =
      let rest = assign k v m in
      if case_insensitive_less k e.0
      then (k, v) ∷ e ∷ m
      else if case_insensitive_less e.0 k
      then e ∷ rest
      else (e.0, v) ∷ m

  -- `m.erase(key)`.
  unfoldable pub erase : Text → MapType → MapType
  erase k [] = []
  erase k (e ∷ m) = let rest = erase k m in if equivalent k e.0 then rest else e ∷ rest

  -- `getHeader` and the like.
  unfoldable pub get : MapType → Text → Text → Text
  get m k def = elim (find k m) [ none ↦ def | some v ↦ v ]

  -- `hasHeader` and the like, with what `*val` is afterwards, where the pointer is not null.
  unfoldable pub has : MapType → Text → Text → Bool × Text
  has m k val = elim (find k m) [ none ↦ (false, val) | some v ↦ (true, v) ]

  module _ {V : Type 0} (lexical_cast : Text → Option V) where
    -- The answer, and what `val` is afterwards.
    unfoldable pub check_get_as : MapType → Text → V → Bool × V
    check_get_as m k def = elim (find k m) [
      | none ↦ (false, def)
      | some s ↦ elim (lexical_cast s) [ none ↦ (false, def) | some v ↦ (true, v) ]
    ]

    unfoldable pub get_as : MapType → Text → V → V
    get_as m k def = elim (find k m) [
      | none ↦ def
      | some s ↦ elim (lexical_cast s) [ none ↦ def | some v ↦ v ]
    ]
