-- ===== src/HttpSession/Body.antt =====
-- The body of a request in src/http/http_session.cpp.
use net_ninja.Common.{
  ℕ, ◌-◌, ◌^◌, ◌≡◌, ◌⊎◌, Bool, true, false, ◌&&◌, List, [], ◌++◌, none, some, ltb, length, drop,
  drop,
}
use net_ninja.Stream.{Reply, Answer, read_fix_size}
use net_ninja.Stream.Whole.{IsSource}
use net_ninja.HttpSession.{Request, is_positive}
use net_ninja.HttpSession.Parsed.{IsParsed, IsClosed}

module _ {State Parser : Type 0} (read : State → ℕ → Reply × State) (close : State → State)
    (remaining : State → List ℕ) (src : IsSource read remaining) where
  -- A request has a body of the length that is asked for, which stands first; `extra` is what the
  -- buffer holds behind it.
  abbrev pub IsFilled : State → Parser → List ℕ → ℕ → Request State Parser → Type 0
  IsFilled s p rest size (Request.failed s') =
      (a : Answer) × (out : List ℕ) × (t : State) × (read_fix_size read s (size - length rest)
        ≡ some (a, out, t))
      × (is_positive a ≡ false)
      × (s' ≡ close t)
  IsFilled s p rest size (Request.request q none s') = ⊥
  IsFilled s p rest size (Request.request q (some body) s') =
      (q ≡ p)
      × (length body ≡ size)
      × ((extra : List ℕ) × (rest ++ remaining s ≡ body ++ (extra ++ remaining s')))

  module _ (execute : Parser → List ℕ → ℕ × Parser) (has_error is_finished : Parser → Bool)
      (content_length : Parser → ℕ) where
    -- What a request means: its parser is finished without an error, by calls of `execute` on what the
    -- stream gave, and the body stands first in what they left, in front of what the buffer holds behind
    -- it and of what the stream still has. Without a body, all that they left stands in these two.
    abbrev pub IsRequest : State → Parser → Request State Parser → Type 0
    IsRequest s p (Request.failed s') = Unit {0}
    IsRequest s p (Request.request q none s') =
        (has_error q ≡ false)
        × (is_finished q ≡ true)
        × ((ltb 0 (content_length q) && ltb (content_length q) (2 ^ 63)) ≡ false)
        × ((extra : List ℕ) × IsParsed execute p (remaining s) q (extra ++ remaining s'))
    IsRequest s p (Request.request q (some body) s') =
        (has_error q ≡ false)
        × (is_finished q ≡ true)
        × (length body ≡ content_length q)
        × ((extra : List ℕ) × IsParsed execute p (remaining s) q (body ++ (extra ++ remaining s')))

    -- What a null request means: the loop over the head closed the stream, or the bytes of the body that
    -- the buffer did not hold could not be read.
    abbrev pub IsFailed : ℕ → State → Parser → Request State Parser → Type 0
    IsFailed buff_size s p (Request.failed s') =
        IsClosed read close execute has_error is_finished remaining src s p [] buff_size s'
        ⊎ ((q : Parser) × (rest : List ℕ) × (t : State) × IsParsed execute p (remaining s) q
              (rest ++ remaining t)
            × IsFilled t q rest (content_length q) (Request.failed s'))
    IsFailed buff_size s p (Request.request q body s') = Unit {0}
