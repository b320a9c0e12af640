-- ===== src/Config/Tests.antt =====
-- The configuration of src/config.cpp at concrete inputs. A variable is the last text that it was given.
use net_ninja.Common.{
  ℕ, ◌+◌, ◌≡◌, refl, true, false, Option, none, some, All, List, [], ◌∷◌, if◌then◌else◌, leb, ◌&&◌,
  ◌==◌, arith,
}
use net_ninja.Http.{Text, codes, same_text}
use net_ninja.Config.{
  ConfigVar, Node, scalar, mapping, sequence, end, field, nil, cons, is_name, list_all_member,
  list_fields, list_items, lookup_base, change, load_nodes, load_from_yaml, load_files,
  add_listener, insert_key, set_value, lookup_or_make, Looked,
}
use net_ninja.Config.Loaded.{IsLower, IsLoaded, load_from_yaml-assigned}
use net_ninja.Config.Files.{IsSeen, load_files-load_files}

abbrev lower : ℕ → ℕ
lower c = if leb b'A' c && leb c b'Z' then c + 32 else c

lower-IsLower : IsLower lower
lower-IsLower c h = ground arith

abbrev digits : ℕ → Text
digits n = (48 + n) ∷ []

abbrev printed : Node → Text
printed n = codes "?"

abbrev given : Text → Text → Option Text
given old s = if same_text s (codes "?") then none else some s

abbrev root : Node
root = mapping (
    field (codes "server")
      (mapping (field (codes "port") (scalar (codes "80")) (field (codes "Name") (scalar []) end)))
      (field (codes "ids") (sequence (cons (scalar (codes "7")) nil)) end))

abbrev datas : List (Text × Text)
datas =
    (codes "server.port", codes "0") ∷ (codes "server.name", codes "n") ∷ (codes "ids.0", []) ∷ []

loaded_run : load_from_yaml lower printed given digits root datas ≡ (
  true,
  (codes "server.port", codes "80")
      ∷ (codes "server.name", codes "n")
      ∷ (codes "ids.0", codes "7")
      ∷ [],
)
unfolding load_from_yaml load_nodes lookup_base list_all_member list_fields list_items change
    is_name same_text
loaded_run = refl

-- The key of a listener is given where it is added, and is not returned in the source.
listener_run :
    let c : ConfigVar ℕ = (add_listener 4 (record { m_val = 1; m_cbs = [] })).1 in
    (set_value ◌==◌ 1 c ≡ (c, [])) × ((set_value ◌==◌ 2 c).1 ≡ (5, 1, 2) ∷ [])
unfolding add_listener insert_key set_value
listener_run = (refl, refl)

-- A variable that exists is found in any spelling, and none is made under another than the lower case.
lookup_run :
    ((lookup_or_make lower (λ v. true) [] (codes "Ids.0") datas).0 ≡ Looked.found [])
    × ((lookup_or_make lower (λ v. true) [] (codes "Ids") datas).0 ≡ Looked.invalid_argument)
unfolding lookup_or_make lookup_base is_name same_text
lookup_run = (refl, refl)

load_from_yaml-assigned_example :
    IsLoaded lower printed given
      (list_all_member digits [] root)
      datas
      (load_from_yaml lower printed given digits root datas)
load_from_yaml-assigned_example =
    load_from_yaml-assigned lower printed given digits root datas lower-IsLower

abbrev load_file : Text → Option Node
load_file f = some root

abbrev mtime : Text → ℕ
mtime f = 9

load_files-load_files_example :
    let s =
      (load_files lower printed given digits load_file mtime true
        (codes "a.yml" ∷ [])
        (λ f. 0, datas)).1 in
    All (IsSeen lower printed given digits load_file mtime s) (codes "a.yml" ∷ [])
    × (load_files lower printed given digits load_file mtime false (codes "a.yml" ∷ []) s ≡ ([], s))
    × ((load_files lower printed given digits load_file mtime true (codes "a.yml" ∷ []) s).0
        ≡ codes "a.yml" ∷ [])
load_files-load_files_example =
    load_files-load_files lower printed given digits load_file mtime true (codes "a.yml" ∷ [])
      (λ f. 0) datas
