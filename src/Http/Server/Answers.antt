-- ===== src/Http/Server/Answers.antt =====
-- What a client of a server sees.
use qslary.Base.{Bool, ℕ, suc, ◌≡◌, refl, ap, Option, some, none, []}
use qslary.Base.Text.{Bytes}
use qslary.Stream.{Stream}
use qslary.Stream.FixSize.{Carries}
use qslary.Http.Request.{HttpRequest}
use qslary.Http.Response.{HttpResponse}
use qslary.Http.Parser.{Machine, RequestEvent}
use qslary.Http.Servlet.{handle}
use qslary.Http.Session.{accepted}
use qslary.Http.Session.Ended.{recv_request-at_end}
use qslary.Http.Server.{
  HttpServer, Served, aborted, new_response, answer, after_request, serve, handle_client,
}

module _ {S M : Type 0} (v : Stream S) (resizes : ℕ → Bool) (c : Carries v)
    (p : Machine M RequestEvent) (to_text : Bytes → Option Bytes) (to_number : Bytes → Option ℕ)
    (fnmatch : Bytes → Bytes → Bool) (server : HttpServer S) where
  pub after_handled :
      (next : S → Option (Served S)) (request : HttpRequest) (s s' : S) (code : ℕ)
      (response : HttpResponse)
      → handle fnmatch request (new_response server request) server.dispatch s
        ≡ some (code, response, s')
      → after_request v resizes p to_text to_number fnmatch server next (accepted request s)
        ≡ answer v resizes p to_text to_number fnmatch server next response s'
  unfolding after_request
  after_handled next request s s' code response e =
      ap
        (λ o. elim o as (λ _. Option (Served S)) [
          | none ↦ some (aborted s)
          | some (code', response', s') ↦
              answer v resizes p to_text to_number fnmatch server next response' s'
        ])
        e

  -- A client that closes its connection without a further request ends the program: the null pointer
  -- fails the assertion.
  pub handle_client-aborts :
      (fuel : ℕ) (s : S)
      → c.incoming s ≡ []
      → (s' : S) × (handle_client v resizes p to_text to_number fnmatch server (suc fuel) s
          ≡ some (aborted s'))
  unfolding handle_client serve after_request
  handle_client-aborts fuel s e =
      let (s', got) = recv_request-at_end v resizes c p to_text to_number fuel s e in
      (s', rw got refl)
