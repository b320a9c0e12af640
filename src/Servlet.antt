-- ===== src/Servlet.antt =====
-- src/http/http_servlet.h and src/http/http_servlet.cpp: the table of servlets by path. A path is its
-- bytes. `fnmatch` of the C library is the parameter `matches`: whether it answers 0 for a pattern and
-- a path. A servlet object, a callback and the type of a created servlet are numbers. The
-- unordered_map is a list of pairs whose order nothing reads.
pub mod Table
pub mod Match
mod Tests
use net_ninja.Common.{
  ℕ, Bool, true, false, ◌&&◌, List, [], ◌∷◌, ◌++◌, Option, none, some, ◌==◌, if◌then◌else◌,
}

abbrev pub Uri : Type 0
Uri = List ℕ

-- What a request can reach: a servlet that was given, a FunctionServlet, one made by the call, and the
-- NotFoundServlet of the constructor.
pub data Servlet : Type 0 where
  given : ℕ → Servlet
  function : ℕ → Servlet
  made : ℕ → Servlet
  not_found : Servlet

-- `HoldServletCreator` and `ServletCreator<T>`.
pub data Creator : Type 0 where
  hold : Servlet → Creator
  make : ℕ → Creator

-- `IServletCreator::get`
unfoldable pub get : Creator → Servlet
get (Creator.hold s) = s
get (Creator.make t) = Servlet.made t

pub record ServletDispatch : Type 0 where
  pub datas : List (Uri × Creator)
  pub globs : List (Uri × Creator)
  pub default_servlet : Option Servlet

-- `==` on std::string.
unfoldable pub same_uri : Uri → Uri → Bool
same_uri [] [] = true
same_uri [] (y ∷ ys) = false
same_uri (x ∷ xs) [] = false
same_uri (x ∷ xs) (y ∷ ys) = x == y && same_uri xs ys

unfoldable pub new_dispatch : ServletDispatch
new_dispatch = record { datas = []; globs = []; default_servlet = some Servlet.not_found }

-- `m_datas[uri] = creator`
unfoldable pub assign : Uri → Creator → List (Uri × Creator) → List (Uri × Creator)
assign u c [] = (u, c) ∷ []
assign u c (e ∷ l) = let rest = assign u c l in if same_uri e.0 u then (e.0, c) ∷ l else e ∷ rest

-- The loop that erases the first pair of a name, and `m_datas.erase(uri)`.
unfoldable pub erase_first : Uri → List (Uri × Creator) → List (Uri × Creator)
erase_first u [] = []
erase_first u (e ∷ l) = let rest = erase_first u l in if same_uri e.0 u then l else e ∷ rest

-- `m_datas.find(uri)`, and the loop of `getGlobServlet`.
unfoldable pub find : Uri → List (Uri × Creator) → Option Creator
find u [] = none
find u (e ∷ l) = let rest = find u l in if same_uri e.0 u then some e.1 else rest

unfoldable pub add_servlet_creator : ServletDispatch → Uri → Creator → ServletDispatch
add_servlet_creator d u c = record d { datas = assign u c d.datas }

unfoldable pub add_servlet : ServletDispatch → Uri → Servlet → ServletDispatch
add_servlet d u s = record d { datas = assign u (Creator.hold s) d.datas }

unfoldable pub add_servlet_callback : ServletDispatch → Uri → ℕ → ServletDispatch
add_servlet_callback d u f = record d {
  datas = assign u (Creator.hold (Servlet.function f)) d.datas;
}

unfoldable pub add_glob_servlet_creator : ServletDispatch → Uri → Creator → ServletDispatch
add_glob_servlet_creator d u c = record d { globs = erase_first u d.globs ++ (u, c) ∷ [] }

unfoldable pub add_glob_servlet : ServletDispatch → Uri → Servlet → ServletDispatch
add_glob_servlet d u s = record d { globs = erase_first u d.globs ++ (u, Creator.hold s) ∷ [] }

unfoldable pub add_glob_servlet_callback : ServletDispatch → Uri → ℕ → ServletDispatch
add_glob_servlet_callback d u f = add_glob_servlet d u (Servlet.function f)

unfoldable pub del_servlet : ServletDispatch → Uri → ServletDispatch
del_servlet d u = record d { datas = erase_first u d.datas }

unfoldable pub del_glob_servlet : ServletDispatch → Uri → ServletDispatch
del_glob_servlet d u = record d { globs = erase_first u d.globs }

unfoldable pub set_default : ServletDispatch → Option Servlet → ServletDispatch
set_default d s = record d { default_servlet = s }

abbrev pub made_by : Option Creator → Option Servlet
made_by none = none
made_by (some c) = some (get c)

unfoldable pub get_servlet : ServletDispatch → Uri → Option Servlet
get_servlet d u = made_by (find u d.datas)

unfoldable pub get_glob_servlet : ServletDispatch → Uri → Option Servlet
get_glob_servlet d u = made_by (find u d.globs)

-- `listAllServletCreator` and `listAllGlobServletCreator`, into the map `infos`.
unfoldable pub list_all : List (Uri × Creator) → List (Uri × Creator) → List (Uri × Creator)
list_all infos [] = infos
list_all infos (e ∷ l) = list_all (assign e.0 e.1 infos) l

module _ (matches : Uri → Uri → Bool) where
  -- The loop over the patterns.
  unfoldable pub first_match : Uri → List (Uri × Creator) → Option Creator
  first_match u [] = none
  first_match u (e ∷ l) = let rest = first_match u l in if matches e.0 u then some e.1 else rest

  unfoldable pub get_matched_servlet : ServletDispatch → Uri → Option Servlet
  get_matched_servlet d u = elim (find u d.datas) [
    | some c ↦ some (get c)
    | none ↦ elim (first_match u d.globs) [ some c ↦ some (get c) | none ↦ d.default_servlet ]
  ]

  -- `handle`: the servlet whose `handle` is called, if any, and the answer.
  unfoldable pub handle : ServletDispatch → Uri → Option Servlet × ℕ
  handle d path = (get_matched_servlet d path, 0)
