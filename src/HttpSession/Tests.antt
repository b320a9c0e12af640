-- ===== src/HttpSession/Tests.antt =====
-- recvRequest on a stream with small parts, and a head that ends with a line feed.
use net_ninja.Common.{
  ℕ, ◌+◌, ◌≡◌, refl, Bool, true, false, List, [], ◌∷◌, Option, some, take, drop, if◌then◌else◌,
  ◌==◌,
}
use Prim.Native.Nat.{min}
use net_ninja.Stream.{Reply, read_fix_size, read_fix_loop}
use net_ninja.HttpSession.{Request, read_body, recv_body, recv_head, recv_request}

abbrev read_two : List ℕ → ℕ → Reply × List ℕ
read_two [] n = (Reply.stop 0, [])
read_two (x ∷ s) n = (Reply.got (take (min n 2) (x ∷ s)), drop (min n 2) (x ∷ s))

-- The parser is true when it has taken a line feed.
abbrev take_line : Bool → List ℕ → ℕ × Bool
take_line p [] = (0, p)
take_line p (x ∷ s) = let (n, q) = take_line p s in if x == 10 then (1, true) else (n + 1, q)

abbrev received : Option (Request (List ℕ) Bool)
received =
    recv_request read_two (λ s. []) take_line (λ p. false) (λ p. p) (λ p. 3) 9 4
      (1 ∷ 2 ∷ 10 ∷ 7 ∷ 8 ∷ 9 ∷ 5 ∷ []) false

received_run : received ≡ some (Request.request true (some (7 ∷ 8 ∷ 9 ∷ [])) (5 ∷ []))
unfolding recv_request recv_head recv_body read_body read_fix_size read_fix_loop
received_run = refl
