-- ===== src/HttpConnectionPool/Tests.antt =====
-- Runs of the pool, and its theorems at concrete inputs.
use net_ninja.Common.{
  ℕ, ◌+◌, ◌%◌, ◌^◌, ◌≡◌, refl, ◌≢◌, ◌⊎◌, Bool, true, false, List, [], ◌∷◌, ◌++◌, Option, none, some,
  length, All,
}
use net_ninja.HttpConnectionPool.{Pool, new_pool, take_valid, get_connection, release_ptr}
use net_ninja.HttpConnectionPool.Reuse.{is_usable, listed, or_else, get_connection-IsFirst}
use net_ninja.HttpConnectionPool.Total.{Step, IsReachable, reachable-IsCounted}

abbrev all_open : ℕ → Bool
all_open p = true

-- A connection is made at 5, used and put back.
abbrev lent_pool : Pool
lent_pool = (get_connection all_open (new_pool 60 10) 1000 (some 5)).1

abbrev used_pool : Pool
used_pool = release_ptr all_open lent_pool 1001 5

used_run : used_pool.conns ≡ 5 ∷ []
unfolding new_pool get_connection take_valid release_ptr
used_run = refl

again_run : (get_connection all_open used_pool 2000 (some 6)).0 ≡ some 5
unfolding new_pool get_connection take_valid release_ptr
again_run = refl

used_pool-IsReachable : IsReachable used_pool []
unfolding new_pool get_connection take_valid
used_pool-IsReachable =
    IsReachable.step lent_pool used_pool (5 ∷ []) []
      (IsReachable.step (new_pool 60 10) lent_pool [] (5 ∷ []) (IsReachable.start 60 10)
        (Step.got all_open 1000 (some 5)))
      (Step.released all_open 1001 5 [] [] refl)

reachable-IsCounted_example :
    used_pool.total ≡ (length used_pool.conns + length {A = ℕ} []) % 2 ^ 32
reachable-IsCounted_example = reachable-IsCounted used_pool [] used_pool-IsReachable

get_connection-IsFirst_example :
    (invalid : List ℕ) × (found : Option ℕ) × (rest : List ℕ) × (used_pool.conns
      ≡ invalid ++ (listed found ++ rest))
    × All (λ p. is_usable all_open used_pool 2000 p ≡ false) invalid
    × All (λ p. is_usable all_open used_pool 2000 p ≡ true) (listed found)
    × ((found ≢ none) ⊎ (rest ≡ []))
    × ((get_connection all_open used_pool 2000 (some 6)).0 ≡ or_else found (some 6))
    × ((get_connection all_open used_pool 2000 (some 6)).1.conns ≡ rest)
get_connection-IsFirst_example = get_connection-IsFirst all_open used_pool 2000 (some 6)
