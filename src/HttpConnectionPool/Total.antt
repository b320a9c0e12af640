-- ===== src/HttpConnectionPool/Total.antt =====
-- The count of connections, m_total of src/http/http_connection.h.
use net_ninja.Common.{
  ℕ, ◌+◌, ◌%◌, ◌^◌, ◌<◌, ◌≡◌, refl, inl, inr, Bool, true, false, not, ◌&&◌, ◌||◌, List, [], ◌∷◌,
  ◌++◌, Option, arith, ltb, leb, if◌then◌else◌, length, length-append, Bool-cases, Option-cases,
}
use net_ninja.HttpConnectionPool.{
  Pool, new_pool, age_limit, take_valid, get_connection, release_ptr,
}
use net_ninja.HttpConnectionPool.Reuse.{is_usable, listed, take_valid-length}

-- The pool, and the connections that requests hold. Calls at any times, with any sockets closed.
pub data Step (m : Pool) (lent : List ℕ) : Pool → List ℕ → Type 0 where
  got :
      (is_connected : ℕ → Bool) (now : ℕ) (created : Option ℕ)
      → Step m lent
          (get_connection is_connected m now created).1
          (listed (get_connection is_connected m now created).0 ++ lent)
  released :
      (is_connected : ℕ → Bool) (now p : ℕ) (front back : List ℕ)
      → lent ≡ front ++ p ∷ back
      → Step m lent (release_ptr is_connected m now p) (front ++ back)

pub data IsReachable : Pool → List ℕ → Type 0 where
  start : (max_alive_time max_request : ℕ) → IsReachable (new_pool max_alive_time max_request) []
  step :
      (m m' : Pool) (lent lent' : List ℕ)
      → IsReachable m lent
      → Step m lent m' lent'
      → IsReachable m' lent'

abbrev IsCounted : Pool → List ℕ → Type 0
IsCounted m lent = m.total ≡ (length m.conns + length lent) % 2 ^ 32

got-IsCounted :
    (is_connected : ℕ → Bool) (m : Pool) (lent : List ℕ) (now : ℕ) (created : Option ℕ)
    → IsCounted m lent
    → IsCounted
        (get_connection is_connected m now created).1
        (listed (get_connection is_connected m now created).0 ++ lent)
unfolding get_connection
got-IsCounted is_connected m lent now created h =
    let n = take_valid-length is_connected m now m.conns in
    elim (Option-cases (take_valid is_connected m now m.conns).1) [
      | inr (p, e) ↦ rw (get_connection, e) (omega (arith, h, rw e at n))
      | inl e ↦ elim (Option-cases created) [
        | inl c ↦ rw (get_connection, e, c) (omega (arith, h, rw e at n))
        | inr (p, c) ↦ rw (get_connection, e, c) (omega (arith, h, rw e at n))
      ]
    ]

abbrev is_dropped : (ℕ → Bool) → Pool → ℕ → ℕ → Bool
is_dropped is_connected m now p =
    not (is_connected p)
    || leb now (age_limit m p)
    || leb m.max_request (((m.store p).request + 1) % 2 ^ 64)

released-IsCounted :
    (is_connected : ℕ → Bool) (m : Pool) (now p : ℕ) (front back : List ℕ)
    → IsCounted m (front ++ p ∷ back)
    → IsCounted (release_ptr is_connected m now p) (front ++ back)
unfolding release_ptr
released-IsCounted is_connected m now p front back h =
    elim (Bool-cases (is_dropped is_connected m now p)) [
      | inl d ↦
          rw (release_ptr, d)
            (omega (arith, h, length-append front (p ∷ back), length-append front back))
      | inr d ↦
          rw (release_ptr, d)
            (omega (
              arith,
              h,
              length-append front (p ∷ back),
              length-append front back,
              length-append m.conns (p ∷ []),
            ))
    ]

Step-IsCounted :
    (m m' : Pool) (lent lent' : List ℕ)
    → IsCounted m lent
    → Step m lent m' lent'
    → IsCounted m' lent'
Step-IsCounted m m' lent lent' h (Step.got c now created) = got-IsCounted c m lent now created h
Step-IsCounted m m' lent lent' h (Step.released c now p front back e) =
    released-IsCounted c m now p front back (rw e at h)

-- After any calls, m_total counts the connections that wait and those that requests hold, modulo the
-- width of the counter.
pub reachable-IsCounted :
    (m : Pool) (lent : List ℕ)
    → IsReachable m lent
    → m.total ≡ (length m.conns + length lent) % 2 ^ 32
unfolding new_pool
reachable-IsCounted m lent (IsReachable.start a r) = refl
reachable-IsCounted m lent (IsReachable.step n n' l l' r s) =
    Step-IsCounted n n' l l' (reachable-IsCounted n l r) s

got-create_time :
    (is_connected : ℕ → Bool) (m : Pool) (now : ℕ) (created : Option ℕ)
    → ((p : ℕ) → (m.store p).create_time ≡ 0)
    → (p : ℕ) → ((get_connection is_connected m now created).1.store p).create_time ≡ 0
unfolding get_connection
got-create_time is_connected m now created h p =
    elim (Option-cases (take_valid is_connected m now m.conns).1) [
      | inr (q, e) ↦ rw (get_connection, e) (h p)
      | inl e ↦ elim (Option-cases created) [
        | inl c ↦ rw (get_connection, e, c) (h p)
        | inr (q, c) ↦ rw (get_connection, e, c) (ground (arith, h p))
      ]
    ]

released-create_time :
    (is_connected : ℕ → Bool) (m : Pool) (now q : ℕ)
    → ((p : ℕ) → (m.store p).create_time ≡ 0)
    → (p : ℕ) → ((release_ptr is_connected m now q).store p).create_time ≡ 0
unfolding release_ptr
released-create_time is_connected m now q h p =
    elim (Bool-cases (is_dropped is_connected m now q)) [
      | inl d ↦ rw (release_ptr, d) (ground (arith, h p, h q))
      | inr d ↦ rw (release_ptr, d) (ground (arith, h p, h q))
    ]

create_time_zero :
    (m : Pool) (lent : List ℕ) → IsReachable m lent → (p : ℕ) → (m.store p).create_time ≡ 0
unfolding new_pool
create_time_zero m lent (IsReachable.start a r) p = refl
create_time_zero m lent (IsReachable.step n n' l l' r (Step.got c now created)) p =
    got-create_time c n now created (create_time_zero n l r) p
create_time_zero m lent (IsReachable.step n n' l l' r (Step.released c now q front back e)) p =
    released-create_time c n now q (create_time_zero n l r) p

-- After any calls, once the clock shows more than the longest age, the age of a connection never
-- counts: `getConnection` can hand out exactly the connected ones, and `ReleasePtr` puts back each one
-- that is connected and has requests left.
pub reachable-ageless :
    (m : Pool) (lent : List ℕ) (is_connected : ℕ → Bool) (now p : ℕ)
    → IsReachable m lent
    → m.max_alive_time < 2 ^ 32
    → m.max_alive_time < now
    → (is_usable is_connected m now p ≡ is_connected p)
      × ((release_ptr is_connected m now p).conns ≡ (
          if is_connected p && ltb (((m.store p).request + 1) % 2 ^ 64) m.max_request
          then m.conns ++ p ∷ []
          else m.conns))
unfolding release_ptr
reachable-ageless m lent is_connected now p r a b =
    let limit : age_limit m p < now = omega (arith, create_time_zero m lent r p) in
    let request' = ((m.store p).request + 1) % 2 ^ 64 in
    (
      usable-young (is_connected p) now (age_limit m p) limit,
      kept-conns _
          (dropped-young (is_connected p) now (age_limit m p) m.max_request request' limit),
    )
  where
    usable-young : (c : Bool) (n l : ℕ) → l < n → (c && not (ltb n l)) ≡ c
    usable-young c n l h = ground arith

    dropped-young :
        (c : Bool) (n l k q : ℕ) → l < n → (not c || leb n l || leb k q) ≡ not (c && ltb q k)
    dropped-young c n l k q h = ground arith

    kept-conns :
        (kept : Bool)
        → is_dropped is_connected m now p ≡ not kept
        → (release_ptr is_connected m now p).conns ≡ (if kept then m.conns ++ p ∷ [] else m.conns)
    kept-conns true e = rw (release_ptr, e) refl
    kept-conns false e = rw (release_ptr, e) refl
