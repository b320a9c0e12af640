-- ===== src/HttpConnectionPool.antt =====
-- HttpConnectionPool of src/http/http_connection.h and src/http/http_connection.cpp: the connections that
-- wait for a request. A connection is an address in a store. Whether a socket is connected is the
-- parameter `is_connected`, asked once for a connection in a call. The clock is the argument `now`.
-- Looking up the host, making the socket and connecting it are the argument `created`: the address of
-- the new object, or none where one of them fails. m_total, an int32_t, is its bit pattern.
pub mod Reuse
pub mod Total
mod Tests
use net_ninja.Common.{
  ℕ, ◌+◌, ◌-◌, ◌%◌, ◌^◌, Bool, true, false, not, ◌||◌, List, [], ◌∷◌, ◌++◌, Option, none, some, ltb,
  leb, ◌==◌, if◌then◌else◌, length,
}

pub record Connection : Type 0 where
  pub create_time : ℕ
  pub request : ℕ

pub record Pool : Type 0 where
  pub max_alive_time : ℕ
  pub max_request : ℕ
  pub store : ℕ → Connection
  pub conns : List ℕ
  pub total : ℕ

-- `HttpConnectionPool(...)`
unfoldable pub new_pool : ℕ → ℕ → Pool
new_pool max_alive_time max_request = record {
  max_alive_time = max_alive_time;
  max_request = max_request;
  store = λ p. record { create_time = 0; request = 0 };
  conns = [];
  total = 0;
}

-- `m_createTime + m_maxAliveTime`, a uint64_t.
abbrev pub age_limit : Pool → ℕ → ℕ
age_limit m p = ((m.store p).create_time + m.max_alive_time) % 2 ^ 64

abbrev pub put_connection : (ℕ → Connection) → ℕ → Connection → ℕ → Connection
put_connection store p c q = if p == q then c else store q

module _ (is_connected : ℕ → Bool) where
  -- The loop of `getConnection`: those to delete, the one that is found, and those that are left.
  unfoldable pub take_valid : Pool → ℕ → List ℕ → List ℕ × Option ℕ × List ℕ
  take_valid m now [] = ([], none, [])
  take_valid m now (p ∷ l) =
      let (invalid, found, rest) = take_valid m now l in
      if not (is_connected p)
      then (p ∷ invalid, found, rest)
      else if ltb now (age_limit m p)
      then (p ∷ invalid, found, rest)
      else ([], some p, l)

  unfoldable pub get_connection : Pool → ℕ → Option ℕ → Option ℕ × Pool
  get_connection m now created =
      let (invalid, found, rest) = take_valid m now m.conns in
      let m' = record m {
        conns = rest;
        total = (m.total + 2 ^ 32 - length invalid % 2 ^ 32) % 2 ^ 32;
      } in
      elim found [
        | some p ↦ (some p, m')
        | none ↦ elim created [
          | none ↦ (none, m')
          | some p ↦ (
            some p,
            record m' {
              store = put_connection m.store p (record { create_time = 0; request = 0 });
              total = (m'.total + 1) % 2 ^ 32;
            },
          )
        ]
      ]

  -- `ReleasePtr`, which runs when the last owner lets the connection go.
  unfoldable pub release_ptr : Pool → ℕ → ℕ → Pool
  release_ptr m now p =
      let c = m.store p in
      let request' = (c.request + 1) % 2 ^ 64 in
      let m' = record m { store = put_connection m.store p (record c { request = request' }) } in
      if not (is_connected p) || leb now (age_limit m p) || leb m.max_request request'
      then record m' { total = (m.total + 2 ^ 32 - 1) % 2 ^ 32 }
      else record m' { conns = m.conns ++ p ∷ [] }
