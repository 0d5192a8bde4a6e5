-- ===== src/Http/Server/Returns.antt =====
-- A server is done with each of its clients.
use qslary.Base.{
  Bool, ◌≤◌, ℕ, zero, suc, ◌<◌, ◌≡◌, refl, ap, ◌∙◌, not, ◌||◌, Option, some, none, Bool-cases,
  Option-cases, inl, inr, arith,
}
use qslary.Base.Text.{Bytes}
use qslary.Stream.{Stream}
use qslary.Stream.FixSize.{Carries, write_fix_size-WriteEnds}
use qslary.Stream.Limits.{IsLimited, write_fix_size-within}
use qslary.Http.Request.{HttpRequest}
use qslary.Http.Response.{HttpResponse, dump}
use qslary.Http.Parser.{Machine, RequestEvent}
use qslary.Http.Servlet.{handle}
use qslary.Http.Session.{Received, refused, raised, accepted, recv_request, send_response}
use qslary.Http.Session.Receive.{recv_request-IsReceived}
use qslary.Http.Session.Progress.{recv_request-less}
use qslary.Http.Server.{
  HttpServer, Served, closed, threw, aborted, new_response, answer, after_request, serve,
  handle_client,
}
use qslary.Http.Server.Answers.{after_handled}

module _ {S M : Type 0} (v : Stream S) (resizes : ℕ → Bool) (c : Carries v) (d : IsLimited v c)
    (p : Machine M RequestEvent) (to_text : Bytes → Option Bytes) (to_number : Bytes → Option ℕ)
    (fnmatch : Bytes → Bytes → Bool) (server : HttpServer S)
    (fair : (request : HttpRequest) (response response' : HttpResponse) (code : ℕ) (s s' : S)
      → handle fnmatch request response server.dispatch s ≡ some (code, response', s')
      → d.limit s' ≤ d.limit s) where
  abbrev Returns : Option (Served S) → Type 0
  Returns o = (result : Served S) × (o ≡ some result)

  answer-Returns :
      (next : S → Option (Served S)) (response : HttpResponse) (s : S)
      → ((s' : S) → d.limit s' ≤ d.limit s → Returns (next s'))
      → Returns (answer v resizes p to_text to_number fnmatch server next response s)
  unfolding answer send_response
  answer-Returns next response s go =
      let (done, wrote, ends_somehow, front, out) =
        write_fix_size-WriteEnds v c (dump response) s in
      elim (Bool-cases (not server.keep_alive || response.close)) [
        | inl ends ↦ (closed (v.close done.stream), rw wrote (rw ends refl))
        | inr goes_on ↦
            let (result, got) =
              go done.stream (write_fix_size-within v c d (dump response) s done wrote) in
            (result, rw wrote (rw goes_on got))
      ]

  unhandled :
      (next : S → Option (Served S)) (request : HttpRequest) (s : S)
      → handle fnmatch request (new_response server request) server.dispatch s ≡ none
      → after_request v resizes p to_text to_number fnmatch server next (accepted request s)
        ≡ some (aborted s)
  unfolding after_request
  unhandled next request s e =
      ap
        (λ o. elim o as (λ _. Option (Served S)) [
          | none ↦ some (aborted s)
          | some (code', response', s') ↦
              answer v resizes p to_text to_number fnmatch server next response' s'
        ])
        e

  after_request-Returns :
      (next : S → Option (Served S)) (request : HttpRequest) (s : S)
      → ((s' : S) → d.limit s' ≤ d.limit s → Returns (next s'))
      → Returns
          (after_request v resizes p to_text to_number fnmatch server next (accepted request s))
  after_request-Returns next request s go =
      elim (Option-cases (handle fnmatch request (new_response server request) server.dispatch s)) [
        | inl fault ↦ (aborted s, unhandled next request s fault)
        | inr ((code, response, s'), handled) ↦
            let less = fair request (new_response server request) response code s s' handled in
            let (result, got) = answer-Returns next response s' (λ s'' l. go s'' (omega arith)) in
            (
              result,
              after_handled v resizes c p to_text to_number fnmatch server next request s s' code
                    response handled
                  ∙ got,
            )
      ]

  received-Returns :
      (next : S → Option (Served S)) (fuel : ℕ) (s : S) (received : Received S)
      → recv_request v resizes p to_text to_number fuel s ≡ some received
      → ((s' : S) → d.limit s' < d.limit s → Returns (next s'))
      → Returns (after_request v resizes p to_text to_number fnmatch server next received)
  unfolding after_request
  received-Returns next fuel s (refused s') e go = (aborted s', refl)
  received-Returns next fuel s (raised s') e go = (threw s', refl)
  received-Returns next fuel s (accepted request s') e go =
      let fewer = recv_request-less v resizes c d p to_text to_number fuel s s' request e in
      after_request-Returns next request s' (λ s'' l. go s'' (omega arith))

  serve-Returns :
      (fuel n : ℕ) (s : S)
      → d.limit s < fuel
      → d.limit s < n
      → Returns (serve v resizes p to_text to_number fnmatch server fuel n s)
  unfolding serve
  serve-Returns fuel zero s enough less = absurd (omega arith)
  serve-Returns fuel (suc n) s enough less =
      let (request, got, ok) =
        recv_request-IsReceived v resizes c p to_text to_number fuel s
          (omega (arith, d.incoming_le s)) in
      let (result, got') =
        received-Returns (λ s'. serve v resizes p to_text to_number fnmatch server fuel n s') fuel s
          request got (λ s' fewer. serve-Returns fuel n s' (omega arith) (omega arith)) in
      (result, rw got got')

  -- A server is done with every client that sends only so many bytes in all, also one that waits for
  -- the answers and reacts to them, where no servlet makes a client send more: once there are more rounds
  -- than these bytes, the session is closed, an exception has ended it, or the program is aborted.
  pub handle_client-Returns :
      (fuel : ℕ) (s : S)
      → d.limit s < fuel
      → (result : Served S) × (handle_client v resizes p to_text to_number fnmatch server fuel s
          ≡ some result)
  unfolding handle_client
  handle_client-Returns fuel s enough = serve-Returns fuel fuel s enough enough
