-- ===== src/HttpConnection/Answered.antt =====
-- A response to a request of src/http/http_connection.cpp follows the whole request.
use net_ninja.Common.{
  ℕ, ◌^◌, ◌≡◌, ap, ◌∙◌, inl, inr, not, List, ◌++◌, Option, some, Bool-cases, Option-cases, if_true,
  if_false, some_is, length, take_all, arith, ltb, ◌==◌,
}
use net_ninja.Http.{Text}
use net_ninja.Http.Headers.{Sign}
use net_ninja.Http.Messages.{HttpRequest, dump_request}
use net_ninja.Stream.{Count, Answer, as_int}
use net_ninja.Stream.Sent.{IsSink, write_fix_size-IsSent}
use net_ninja.HttpConnection.{Response}
use net_ninja.HttpConnection.Requests.{HttpResult, Error, send_request, exchange}

module _ {State Parser : Type 0} (write : State → List ℕ → Count × State)
    (strcasecmp : Text → Text → Sign) (decimal : ℕ → Text)
    (recv : State → Option (Response State Parser)) where
  stopped_error :
      (s s' : State) (req : HttpRequest) (j : ℕ)
      → send_request write strcasecmp decimal s req ≡ some (Answer.stopped j, s')
      → (e : Error) × (exchange write strcasecmp decimal recv s req ≡ some (HttpResult.error e))
  unfolding exchange
  stopped_error s s' req j h = elim (Bool-cases (j == 0)) [
    | inl z ↦ (Error.send_close_by_peer, some_is h _ _ ∙ if_true z _ _)
    | inr z ↦ (Error.send_socket_error, some_is h _ _ ∙ if_false z _ _ ∙ if_true (ap not z) _ _)
  ]

  replied_by :
      (q : Response State Parser) (p : Parser) (body : Option (List ℕ)) (t : State)
      → some (elim q [
        | Response.failed s' ↦ HttpResult.error Error.timeout
        | Response.thrown ↦ HttpResult.raised
        | Response.response p body s' ↦ HttpResult.replied p body s'
      ])
        ≡ some (HttpResult.replied p body t)
      → q ≡ Response.response p body t
  replied_by (Response.failed s') p body t h = cc
  replied_by Response.thrown p body t h = cc
  replied_by (Response.response p' body' s') p body t h = cc

  full_recv :
      (s s' : State) (req : HttpRequest) (n : ℕ) (p : Parser) (body : Option (List ℕ)) (t : State)
      → send_request write strcasecmp decimal s req ≡ some (Answer.full n, s')
      → exchange write strcasecmp decimal recv s req ≡ some (HttpResult.replied p body t)
      → recv s' ≡ some (Response.response p body t)
  unfolding exchange
  full_recv s s' req n p body t h k =
      let sent = rw (exchange, h) at k in
      elim (Bool-cases (n == 0)) [
        | inl z ↦ let e = rw z at sent in cc
        | inr z ↦ elim (Bool-cases (ltb n (2 ^ 31))) [
          | inl y ↦ elim (Option-cases (recv s')) [
            | inl g ↦ let e = rw (z, y, g) at sent in cc
            | inr (q, g) ↦ g ∙ ap some (replied_by q p body t (rw (z, y, g) at sent))
          ]
          | inr y ↦ let e = rw (z, y) at sent in cc
        ]
      ]

  -- For a stream that takes at least one and at most all bytes of a block, from its front, a response
  -- is given only where the whole request was sent before, as `dump` prints it, behind what was sent
  -- until then, and is what recvResponse gave after that.
  pub exchange-IsSent :
      (delivered : State → List ℕ) (sink : IsSink write delivered) (s : State) (req : HttpRequest)
      (p : Parser) (body : Option (List ℕ)) (t : State)
      → exchange write strcasecmp decimal recv s req ≡ some (HttpResult.replied p body t)
      → (s' : State) × (delivered s' ≡ delivered s ++ dump_request strcasecmp decimal req)
        × (recv s' ≡ some (Response.response p body t))
  unfolding send_request
  exchange-IsSent delivered sink s req p body t h =
      let block = dump_request strcasecmp decimal req in
      let (a, k, s', run, bytes, ends) = write_fix_size-IsSent write delivered sink s block in
      elim ends [
        | inl (e, f) ↦ (
          s',
          bytes ∙ ap (λ l. delivered s ++ l) (take_all k block (omega (arith, f))),
          full_recv s s' req (as_int (length block)) p body t (run ∙ ap (λ b. some (b, s')) e) h,
        )
        | inr (j, e, f) ↦
            let (w, g) = stopped_error s s' req j (run ∙ ap (λ b. some (b, s')) e) in cc
      ]
