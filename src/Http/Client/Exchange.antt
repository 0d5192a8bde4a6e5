-- ===== src/Http/Client/Exchange.antt =====
-- `HttpConnection::DoRequest` of http/HttpConnection.cc, with a request that is made: the connection,
-- the request, the response, and the code of the result. The texts of errors are left out, and the
-- timeout is the system's.
pub mod Outcome
use qslary.Base.{ℕ, ◌==◌, Bool, true, false, Option, none, some, if◌then◌else◌}
use qslary.Base.Int.{ℤ, pos, negsuc}
use qslary.Base.Text.{Bytes}
use qslary.Base.Fault.{◌>>=◌}
use qslary.Stream.{Stream}
use qslary.Socket.{Address, System, create_tcp_socket}
use qslary.Socket
use qslary.SockStream
use qslary.SockStream.{SockStream, sock_stream}
use qslary.Http.Request.{HttpRequest}
use qslary.Http.Response.{HttpResponse}
use qslary.Http.Status.{HttpStatus}
use qslary.Http.Parser.{Machine}
use qslary.Http.Parser.Reply.{ResponseEvent, ChunkMachine}
use qslary.Http.Client.Receive.{Reply, refused, overrun, accepted, send_request, recv_response}

-- `HttpResult::Error`, those that are used here.
pub data Error : Type 0 where
  ok invalid_host connection_falid send_close_by_peer send_socket_error timeout : Error

-- The code and the response, or the null pointer.
pub record HttpResult : Type 0 where
  pub result : Error
  pub response : Option HttpResponse

abbrev pub failure : Error → HttpResult
failure error = record { result = error; response = none }

-- How the talk over a connection ends: with a result, or with a length that overflows or leads to an
-- exception.
pub data Talk (S : Type 0) : Type 0 where
  ended : HttpResult → S → Talk S
  overran : S → Talk S

unfoldable pub of_reply : {S : Type 0} → Reply S → Talk S
of_reply (refused s) = ended (failure timeout) s
of_reply (overrun s) = overran s
of_reply (accepted rsp s) = ended (record { result = ok; response = some rsp }) s

module _ {M : Type 0} (p : Machine M ResponseEvent) (q : ChunkMachine M) (atoi : Bytes → HttpStatus)
    (to_number : Bytes → Option ℕ) (resizes : ℕ → Bool) (fuel : ℕ) where
  module _ {S : Type 0} (v : Stream S) where
    -- What comes after the request, for the number that `sendRequest` returns.
    unfoldable pub after_send : ℤ → S → Option (Talk S)
    unfolding of_reply
    after_send (negsuc n) s = some (ended (failure send_socket_error) s)
    after_send (pos n) s =
        if n == 0
        then some (ended (failure send_close_by_peer) s)
        else (do reply ← recv_response v p q atoi to_number resizes fuel s; some (of_reply reply))

    -- From the request on, over any stream.
    unfoldable pub talk : HttpRequest → S → Option (Talk S)
    unfolding after_send
    talk request s = do (rt, s') ← send_request v request s; after_send rt s'

  module _ {W : Type 0} (k : System W) where
    -- The connection is destroyed when it is left.
    after_talk : Talk (SockStream × W) → Talk W
    after_talk (overran s) = overran (SockStream.destroy k s).1
    after_talk (ended result s) = ended result (SockStream.destroy k s).1

    -- `DoRequest(HttpRequest::ptr, URI::ptr, uint64_t)`, for the address that the URI gives.
    pub do_request_at : Option Address → HttpRequest → W → Option (Talk W)
    unfolding talk after_talk
    do_request_at none request w = some (ended (failure invalid_host) w)
    do_request_at (some address) request w = do
      (connected, sock, w') ← Socket.connect k address (create_tcp_socket address) w
      if connected
          then (do
            t ← talk (sock_stream k) request (record { sock = some sock; ower = true }, w')
            some (after_talk t))
          else some (ended (failure connection_falid) w')
