-- ===== src/FdManager/Tests.antt =====
-- The theorems on src/fd_manager.cpp at the first table.
use net_ninja.Common.{
  ℕ, ◌≡◌, ◌≢◌, ◌⊎◌, refl, Bool, true, false, Option, none, some, length, get_elem?, arith,
}
use net_ninja.FdManager.{
  FdManager, new_fd_manager, lookup, create, get_fd, new_fd_ctx, reach, resize, nulls,
}
use net_ninja.FdManager.Known.{IsValid, IsObject}
use net_ninja.FdManager.Shared.{new_fd_manager-IsValid, get_fd-IsKnown}

abbrev sockets : ℕ → Option Bool
sockets fd = some true

abbrev blocking : ℕ → Bool
blocking fd = false

abbrev opened : FdManager
opened = (create sockets blocking new_fd_manager 70).1

grown_run : length opened.datas ≡ 105
unfolding create new_fd_manager reach resize nulls new_fd_ctx
grown_run = refl

apart : ◌≢◌ {A = ℕ} 70 3
apart h = absurd (omega (arith, h))

get_fd-IsKnown_example :
    (p : ℕ) × (m' : FdManager) × (get_fd sockets blocking new_fd_manager (some 70) true
      ≡ (some p, m'))
    × IsValid m'
    × IsObject m' 70 p
    × (((lookup new_fd_manager 70 ≡ some p) × (m' ≡ new_fd_manager))
        ⊎ ((lookup new_fd_manager 70 ≡ none)
            × (get_elem? m'.objects p ≡ some (new_fd_ctx sockets blocking 70))))
    × (get_fd sockets blocking m' (some 70) false ≡ (some p, m'))
    × (lookup m' 3 ≡ lookup new_fd_manager 3)
get_fd-IsKnown_example =
    get_fd-IsKnown sockets blocking new_fd_manager 70 3 false new_fd_manager-IsValid apart
