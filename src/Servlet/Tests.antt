-- ===== src/Servlet/Tests.antt =====
-- Runs of the servlet table, and its theorems at concrete inputs.
use net_ninja.Common.{◌≡◌, refl, Bool, true, [], ◌∷◌, none, some, if◌then◌else◌}
use net_ninja.Servlet.{
  Uri, Servlet, get, ServletDispatch, new_dispatch, same_uri, assign, erase_first, find,
  add_servlet, add_glob_servlet, first_match, get_matched_servlet,
}
use net_ninja.Servlet.Table.{Step, IsReachable}
use net_ninja.Servlet.Match.{others, by_glob, get_matched_servlet-add_glob_servlet}

-- A pattern that is one `*` (42) matches every path, another pattern itself.
abbrev matches : Uri → Uri → Bool
matches p u = if same_uri p (42 ∷ []) then true else same_uri p u

abbrev one_glob : ServletDispatch
one_glob = add_glob_servlet new_dispatch (42 ∷ []) (Servlet.given 1)

abbrev one_each : ServletDispatch
one_each = add_servlet one_glob (47 ∷ []) (Servlet.given 2)

exact_run : get_matched_servlet matches one_each (47 ∷ []) ≡ some (Servlet.given 2)
unfolding get_matched_servlet add_servlet add_glob_servlet new_dispatch assign erase_first find
    same_uri get
exact_run = refl

glob_run : get_matched_servlet matches one_each (48 ∷ []) ≡ some (Servlet.given 1)
unfolding get_matched_servlet add_servlet add_glob_servlet new_dispatch assign erase_first find
    same_uri get first_match
glob_run = refl

one_each-IsReachable : IsReachable one_each
one_each-IsReachable =
    IsReachable.step one_glob one_each
      (IsReachable.step new_dispatch one_glob IsReachable.start
        (Step.glob (42 ∷ []) (Servlet.given 1)))
      (Step.servlet (47 ∷ []) (Servlet.given 2))

get_matched_servlet-add_glob_servlet_example :
    get_matched_servlet matches (add_glob_servlet one_each (48 ∷ []) (Servlet.given 3)) (48 ∷ [])
    ≡ elim (find (48 ∷ []) one_each.datas) [
      | some c ↦ some (get c)
      | none ↦
          by_glob matches
            (others (48 ∷ []) one_each.globs)
            (if matches (48 ∷ []) (48 ∷ [])
              then some (Servlet.given 3)
              else one_each.default_servlet)
            (48 ∷ [])
    ]
get_matched_servlet-add_glob_servlet_example =
    get_matched_servlet-add_glob_servlet matches one_each (48 ∷ []) (48 ∷ []) (Servlet.given 3)
      one_each-IsReachable
