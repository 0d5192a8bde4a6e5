-- ===== src/Http/Server.antt =====
-- http/HttpServer.h and http/HttpServer.cc: one client of a server, whose session is over any stream.
pub mod Answers
pub mod Returns
use qslary.Base.{ℕ, zero, suc, Bool, true, false, not, ◌||◌, Option, none, some, if◌then◌else◌}
use qslary.Base.Text.{Bytes}
use qslary.Base.Fault.{◌>>=◌}
use qslary.Stream.{Stream}
use qslary.Http.Request.{HttpRequest}
use qslary.Http.Response
use qslary.Http.Response.{HttpResponse}
use qslary.Http.Status.{status_ok}
use qslary.Http.Parser.{Machine, RequestEvent}
use qslary.Http.Servlet.{ServletDispatch, handle}
use qslary.Http.Session.{Received, refused, raised, accepted, recv_request, send_response}

pub record HttpServer (S : Type 0) : Type 0 where
  pub keep_alive : Bool
  pub dispatch : ServletDispatch S

-- How a client ends: with a session that was closed, with an exception, or with a failed assertion or a
-- fault of the dispatch, which end the program.
pub data Served (S : Type 0) : Type 0 where
  closed threw aborted : S → Served S

-- The response as it is handed to the dispatch.
unfoldable pub new_response : {S : Type 0} → HttpServer S → HttpRequest → HttpResponse
new_response server request =
    Response.create status_ok request.version (request.close || not server.keep_alive)

module _ {S M : Type 0} (v : Stream S) (resizes : ℕ → Bool) (p : Machine M RequestEvent)
    (to_text : Bytes → Option Bytes) (to_number : Bytes → Option ℕ) (fnmatch : Bytes → Bytes → Bool)
    (server : HttpServer S) where
  -- The response goes out; `next` is the loop's next round.
  pub answer : (S → Option (Served S)) → HttpResponse → S → Option (Served S)
  answer next response s = do
    (size, s') ← send_response v response s
    let again = next s'
    if not server.keep_alive || response.close then some (closed (v.close s')) else again

  pub after_request : (S → Option (Served S)) → Received S → Option (Served S)
  unfolding new_response answer
  after_request next (refused s) = some (aborted s)
  after_request next (raised s) = some (threw s)
  after_request next (accepted request s) =
      elim (handle fnmatch request (new_response server request) server.dispatch s) [
        | none ↦ some (aborted s)
        | some (code, response, s') ↦ answer next response s'
      ]

  -- The `do ... while (true)` on `n` rounds; a round reads with `fuel`. `none`: the fuel ran out.
  pub serve : ℕ → ℕ → S → Option (Served S)
  unfolding after_request
  serve fuel zero s = none
  serve fuel (suc n) s = do
    request ← recv_request v resizes p to_text to_number fuel s
    after_request (λ s'. serve fuel n s') request

  -- `HttpServer::handleClient`
  pub handle_client : ℕ → S → Option (Served S)
  unfolding serve
  handle_client fuel s = serve fuel fuel s
