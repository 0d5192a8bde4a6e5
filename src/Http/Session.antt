-- ===== src/Http/Session.antt =====
-- http/HttpSession.h and http/HttpSession.cc: one request from a stream, and one response to it. The
-- parser's machine is a parameter, and so are `lexical_cast` and the lengths that `std::string::resize`
-- can give.
pub mod Body
pub mod Send
pub mod Heads
pub mod Receive
pub mod Ended
pub mod Progress
use qslary.Base.{
  ℕ, zero, suc, ◌+◌, ◌-◌, ◌^◌, Bool, true, false, not, ◌&&◌, Option, none, some, [], ◌∷◌, ◌++◌,
  ◌==◌, ltb, leb, if◌then◌else◌, length, take,
}
use qslary.Base.Int.{ℤ, is_positive}
use qslary.Base.Text.{Bytes}
use qslary.Base.Fault.{◌>>=◌}
use qslary.Stream.{Stream, Transfer, moved, failed, Done, read_fix_size, write_fix_size}
use qslary.Http.Request
use qslary.Http.Request.{HttpRequest}
use qslary.Http.Response
use qslary.Http.Response.{HttpResponse}
use qslary.Http.Parser.{
  Machine, RequestEvent, RequestParser, create_request_parser, execute_request, request_is_finished,
  request_has_error, request_content_length,
}

abbrev pub buff_size : ℕ
buff_size = 65532

-- How the loop over the head of a request ends: on a closed stream, or with the parser, the bytes
-- behind the head that were read already, and the stream.
pub data Head (M S : Type 0) : Type 0 where
  broken : S → Head M S
  parsed : RequestParser M → Bytes → S → Head M S

-- How the body ends: on a closed stream, with the exception of `resize`, or with the bytes.
pub data BodyRead (S : Type 0) : Type 0 where
  cut thrown : S → BodyRead S
  whole : Bytes → S → BodyRead S

-- The null pointer, an exception, or the request.
pub data Received (S : Type 0) : Type 0 where
  refused raised : S → Received S
  accepted : HttpRequest → S → Received S

-- `length > 0`, where the content length is used as an `int64_t`.
abbrev pub has_body : ℕ → Bool
has_body n = ltb 0 n && ltb n (2 ^ 63)

module _ {S : Type 0} (v : Stream S) (resizes : ℕ → Bool) where
  -- The body of `n` bytes, of which `left` may hold the front.
  unfoldable pub read_body : ℕ → Bytes → S → Option (BodyRead S)
  read_body n left s =
      if not (has_body n)
      then some (whole [] s)
      else if not (resizes n)
      then some (thrown s)
      else if ltb n (length left)
      then some (whole (take n left) s)
      else if n == length left
      then some (whole left s)
      else (do
        d ← read_fix_size v (n - length left) s
        some (
            if is_positive d.returned
            then whole (left ++ d.bytes) d.stream
            else cut (v.close d.stream)))

  module _ {M : Type 0} (p : Machine M RequestEvent) where
    -- What one round makes of the data in the buffer: the loop's next round is an argument.
    unfoldable pub parse_round :
        (Bytes → RequestParser M → S → Option (Head M S))
        → Bytes
        → RequestParser M
        → S
        → Option (Head M S)
    parse_round next data' r s =
        let (nparse, rest, r') = execute_request p data' r in
        let again = next rest r' s in
        if request_has_error p r'
        then some (broken (v.close s))
        else if (length data' - nparse) == buff_size
        then some (broken (v.close s))
        else if request_is_finished p r'
        then some (parsed r' rest s)
        else again

    unfoldable pub read_round :
        (Bytes → RequestParser M → S → Option (Head M S))
        → Bytes
        → RequestParser M
        → Transfer × S
        → Option (Head M S)
    unfolding parse_round
    read_round next left r (moved [], s) = some (broken (v.close s))
    read_round next left r (moved (c ∷ cs), s) = parse_round next (left ++ (c ∷ cs)) r s
    read_round next left r (failed code, s) = some (broken (v.close s))

    -- The `do ... while (true)`; `left` is the data up to `offset`. `none`: the fuel ran out.
    unfoldable pub recv_head : ℕ → Bytes → RequestParser M → S → Option (Head M S)
    unfolding read_round
    recv_head zero left r s = none
    recv_head (suc fuel) left r s =
        read_round (λ left' r' s'. recv_head fuel left' r' s') left r
          (v.read (buff_size - length left) s)

    module _ (to_text : Bytes → Option Bytes) (to_number : Bytes → Option ℕ) where
      unfoldable pub with_body : RequestParser M → BodyRead S → Received S
      with_body r (cut s) = refused s
      with_body r (thrown s) = raised s
      with_body r (whole body s) =
          accepted
            (Request.init to_text (
              if has_body (request_content_length p to_number r)
              then record r.request { body = body }
              else r.request))
            s

      unfoldable pub recv_body : Head M S → Option (Received S)
      unfolding with_body
      recv_body (broken s) = some (refused s)
      recv_body (parsed r left s) = do
        b ← read_body (request_content_length p to_number r) left s
        some (with_body r b)

      -- `HttpSession::recvRequest`
      unfoldable pub recv_request : ℕ → S → Option (Received S)
      unfolding recv_body
      recv_request fuel s = do h ← recv_head fuel [] (create_request_parser p) s; recv_body h

module _ {S : Type 0} (v : Stream S) where
  -- `HttpSession::sendResponse`: the size of the response, also if it was not sent.
  unfoldable pub send_response : HttpResponse → S → Option (ℕ × S)
  send_response response s =
      let text = Response.dump response in
      do d ← write_fix_size v text s; some (length text, d.stream)
