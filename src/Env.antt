-- ===== src/Env.antt =====
-- src/env.h and src/env.cpp: the arguments of the program. A text is its bytes; an argument has no zero
-- byte. The locks are not modelled.
pub mod Given
mod Tests
use net_ninja.Common.{
  Bool, true, false, Option, none, some, List, [], ◌∷◌, ◌++◌, ◌==◌, if◌then◌else◌,
}
use net_ninja.Http.{Text, codes, same_text}

-- A std::map, as its pairs in the order in which the keys were first given.
abbrev pub Table : Type 0
Table = List (Text × Text)

pub record Env : Type 0 where
  pub m_args : Table
  pub m_helps : Table
  pub m_program : Text
  pub m_exe : Text
  pub m_cwd : Text

unfoldable pub put : Text → Text → Table → Table
put key val [] = (key, val) ∷ []
put key val (e ∷ m) =
    let rest = put key val m in if same_text e.0 key then (e.0, val) ∷ m else e ∷ rest

unfoldable pub lookup_arg : Text → Table → Option Text
lookup_arg key [] = none
lookup_arg key (e ∷ m) = let rest = lookup_arg key m in if same_text e.0 key then some e.1 else rest

-- `m_args.erase(key)`, and the loop of removeHelp: all pairs of the key.
unfoldable pub without : Text → Table → Table
without key [] = []
without key (e ∷ m) = let rest = without key m in if same_text e.0 key then rest else e ∷ rest

unfoldable pub add : Text → Text → Env → Env
add key val v = record v { m_args = put key val v.m_args }

unfoldable pub has : Text → Env → Bool
has key v = elim (lookup_arg key v.m_args) [ none ↦ false | some val ↦ true ]

unfoldable pub del : Text → Env → Env
del key v = record v { m_args = without key v.m_args }

unfoldable pub get : Text → Text → Env → Text
get key default_value v = elim (lookup_arg key v.m_args) [ none ↦ default_value | some val ↦ val ]

unfoldable pub remove_help : Text → Env → Env
remove_help key v = record v { m_helps = without key v.m_helps }

unfoldable pub add_help : Text → Text → Env → Env
add_help key desc v =
    let v' = remove_help key v in record v' { m_helps = v'.m_helps ++ (key, desc) ∷ [] }

-- A key that waits for its value gets none.
unfoldable pub add_pending : Option Text → Env → Env
add_pending none v = v
add_pending (some key) v = add key [] v

-- `argv[i][0] == '-'`, `strlen(argv[i]) > 1` and `argv[i] + 1`.
abbrev pub is_key : Text → Bool
is_key [] = false
is_key (c ∷ s) = c == b'-'

abbrev pub is_long : Text → Bool
is_long [] = false
is_long (c ∷ []) = false
is_long (c ∷ d ∷ s) = true

abbrev pub behind : Text → Text
behind [] = []
behind (c ∷ s) = s

-- The loop of `init` over the arguments behind the program's name, with `now_key`, and what follows it.
unfoldable pub init_args : Option Text → List Text → Env → Bool × Env
init_args now_key [] v = (true, add_pending now_key v)
init_args now_key (s ∷ argv) v =
    let started = init_args (some (behind s)) argv (add_pending now_key v) in
    let given : Bool × Env = elim now_key [
      | none ↦ (false, v)
      | some key ↦ init_args none argv (add key s v)
    ] in
    if is_key s then if is_long s then started else (false, v) else given

-- `s.substr(0, s.find_last_of("/"))`: all of it, if there is none.
unfoldable pub has_slash : Text → Bool
has_slash [] = false
has_slash (c ∷ s) = let rest = has_slash s in if c == b'/' then true else rest

unfoldable pub directory : Text → Text
directory [] = []
directory (c ∷ s) =
    let rest = directory s in if has_slash s then c ∷ rest else if c == b'/' then [] else c ∷ rest

-- `link` is what readlink leaves in the buffer.
unfoldable pub init : Text → List Text → Env → Bool × Env
init link argv v =
    init_args none argv (record v { m_exe = link; m_cwd = directory link ++ codes "/" })

unfoldable pub get_absolute_path : Text → Env → Text
get_absolute_path [] v = codes "/"
get_absolute_path (c ∷ path) v = if c == b'/' then c ∷ path else v.m_cwd ++ c ∷ path

-- `work_path` is the value of the configuration.
unfoldable pub get_absolute_work_path : Text → Text → Text
get_absolute_work_path work_path [] = codes "/"
get_absolute_work_path work_path (c ∷ path) =
    if c == b'/' then c ∷ path else work_path ++ codes "/" ++ c ∷ path

unfoldable pub get_config_path : Env → Text
get_config_path v = get_absolute_path (get (codes "c") (codes "conf") v) v
