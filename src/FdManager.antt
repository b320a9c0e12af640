-- ===== src/FdManager.antt =====
-- src/fd_manager.h and src/fd_manager.cpp: what the hooks know of each file descriptor. The objects
-- that shared pointers reach stand in `objects`, and a pointer is a place in it. -1 is `none`; no other
-- descriptor is negative. `fstat` of the system is a parameter, which says whether a descriptor is a
-- socket, and fails with `none`; `is_nonblock` reads the flag O_NONBLOCK. `nonblocks` lists the
-- descriptors on which that flag was set.
pub mod Known
pub mod Shared
mod Tests
use net_ninja.Common.{
  ℕ, zero, suc, ◌+◌, ◌-◌, ◌*◌, ◌/◌, ◌^◌, Bool, true, false, not, ◌&&◌, List, [], ◌∷◌, ◌++◌, Option,
  none, some, leb, if◌then◌else◌, length, get_elem?, set, take,
}

pub record FdCtx : Type 0 where
  pub is_init : Bool
  pub is_socket : Bool
  pub sys_nonblock : Bool
  pub user_nonblock : Bool
  pub is_closed : Bool
  pub fd : ℕ
  pub recv_timeout : ℕ
  pub send_timeout : ℕ

pub record FdManager : Type 0 where
  pub datas : List (Option ℕ)
  pub objects : List FdCtx
  pub nonblocks : List ℕ

-- SO_RCVTIMEO, and any other type.
pub data TimeoutType : Type 0 where
  so_rcvtimeo other_timeout : TimeoutType

-- A timeout of -1, as a uint64_t.
abbrev pub no_timeout : ℕ
no_timeout = 2 ^ 64 - 1

unfoldable pub set_timeout : FdCtx → TimeoutType → ℕ → FdCtx
set_timeout c TimeoutType.so_rcvtimeo v = record c { recv_timeout = v }
set_timeout c TimeoutType.other_timeout v = record c { send_timeout = v }

unfoldable pub get_timeout : FdCtx → TimeoutType → ℕ
get_timeout c TimeoutType.so_rcvtimeo = c.recv_timeout
get_timeout c TimeoutType.other_timeout = c.send_timeout

unfoldable pub set_user_nonblock : FdCtx → Bool → FdCtx
set_user_nonblock c v = record c { user_nonblock = v }

unfoldable pub set_sys_nonblock : FdCtx → Bool → FdCtx
set_sys_nonblock c v = record c { sys_nonblock = v }

unfoldable pub nulls : ℕ → List (Option ℕ)
nulls zero = []
nulls (suc n) = none ∷ nulls n

-- `m_datas.resize(size)`.
unfoldable pub resize : List (Option ℕ) → ℕ → List (Option ℕ)
resize l size = take size l ++ nulls (size - length l)

unfoldable pub new_fd_manager : FdManager
new_fd_manager = record { datas = nulls 64; objects = []; nonblocks = [] }

-- `m_datas[fd]`, under the read lock; out of the table it is null.
unfoldable pub lookup : FdManager → ℕ → Option ℕ
lookup m fd = elim (get_elem? m.datas fd) [ none ↦ none | some p ↦ p ]

-- A vector that does not reach `fd` grows to fd * 1.5.
unfoldable pub reach : List (Option ℕ) → ℕ → List (Option ℕ)
reach l fd = if leb (length l) fd then resize l (fd * 3 / 2) else l

unfoldable pub del : FdManager → ℕ → FdManager
del m fd = if leb (length m.datas) fd then m else record m { datas = set m.datas fd none }

module _ (fstat : ℕ → Option Bool) (is_nonblock : ℕ → Bool) where
  -- `FdCtx(fd)` with `init`.
  unfoldable pub new_fd_ctx : ℕ → FdCtx
  new_fd_ctx fd =
      let found : Bool × Bool = elim (fstat fd) [ none ↦ (false, false) | some s ↦ (true, s) ] in
      record {
        is_init = found.0;
        is_socket = found.1;
        sys_nonblock = found.1;
        user_nonblock = false;
        is_closed = false;
        fd = fd;
        recv_timeout = no_timeout;
        send_timeout = no_timeout;
      }

  -- What `get` does under the write lock.
  unfoldable pub create : FdManager → ℕ → ℕ × FdManager
  create m fd =
      let c = new_fd_ctx fd in
      (
        length m.objects,
        record {
          datas = set (reach m.datas fd) fd (some (length m.objects));
          objects = m.objects ++ c ∷ [];
          nonblocks = if c.is_socket && not (is_nonblock fd) then fd ∷ m.nonblocks else m.nonblocks;
        },
      )

  unfoldable pub get_fd : FdManager → Option ℕ → Bool → Option ℕ × FdManager
  get_fd m none auto_create = (none, m)
  get_fd m (some fd) auto_create = elim (lookup m fd) [
    | some p ↦ (some p, m)
    | none ↦ let (p, m') = create m fd in if auto_create then (some p, m') else (none, m)
  ]
