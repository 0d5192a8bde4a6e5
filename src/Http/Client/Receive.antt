-- ===== src/Http/Client/Receive.antt =====
-- `HttpConnection::recvResponse` and `sendRequest` of http/HttpConnection.cc. The parser's machine is a
-- parameter, and so are `atoi`, `lexical_cast` and the lengths that `std::string::resize` can give.
pub mod Feeding
pub mod Pieces
pub mod Chunks
pub mod Complete
use qslary.Base.{
  ℕ, zero, suc, ◌+◌, ◌-◌, ◌^◌, Bool, true, false, not, ◌&&◌, ◌||◌, Option, none, some, [], ◌∷◌,
  ◌++◌, ◌==◌, ltb, leb, if◌then◌else◌, length, take, drop,
}
use qslary.Base.Int.{ℤ, pos, negsuc, to_int32}
use qslary.Base.Text.{Bytes}
use qslary.Base.Fault.{◌>>=◌}
use qslary.Stream.{Stream, Transfer, moved, failed, Done, write_fix_size}
use qslary.Http.Request
use qslary.Http.Request.{HttpRequest}
use qslary.Http.Response.{HttpResponse}
use qslary.Http.Status.{HttpStatus}
use qslary.Http.Parser.{Machine}
use qslary.Http.Parser.Reply.{
  ResponseEvent, ResponseParser, ChunkMachine, create_response_parser, execute_response,
  response_is_finished, response_has_error, response_content_length,
}
use qslary.Http.Session.{buff_size, BodyRead, cut, thrown, whole, read_body}

-- How the loop over a head ends, that of the response or of a chunk: on a closed stream, or with the
-- parser, the data that was read behind the head, and the stream.
pub data Head (M S : Type 0) : Type 0 where
  broken : S → Head M S
  parsed : ResponseParser M → Bytes → S → Head M S

-- How the data of a chunk ends: on a closed stream, with a length that overflows `int` or that
-- `append` or `resize` refuses by an exception, or with the body so far, the data that was read behind it, and the stream.
pub data Piece (S : Type 0) : Type 0 where
  piece_cut piece_overrun : S → Piece S
  piece : Bytes → Bytes → S → Piece S

-- The null pointer, the response, or a length that overflows or leads to an exception.
pub data Reply (S : Type 0) : Type 0 where
  refused overrun : S → Reply S
  accepted : HttpResponse → S → Reply S

module _ {S : Type 0} (v : Stream S) where
  tail_round : (ℕ → Bytes → S → Option (Piece S)) → ℕ → Bytes → Transfer × S → Option (Piece S)
  tail_round next left body (moved [], s) = some (piece_cut (v.close s))
  tail_round next left body (moved (c ∷ cs), s) = next (left - length (c ∷ cs)) (body ++ (c ∷ cs)) s
  tail_round next left body (failed code, s) = some (piece_cut (v.close s))

  -- `while (left > 0)`, and the two bytes of the line end taken off the body again: of a shorter body
  -- `resize` makes an exception. `none`: the fuel ran out.
  pub read_tail : ℕ → ℕ → Bytes → S → Option (Piece S)
  unfolding tail_round
  read_tail zero left body s = none
  read_tail (suc fuel) left body s =
      let round =
        tail_round (λ left' body' s'. read_tail fuel left' body' s') left body
          (v.read (if ltb buff_size left then buff_size else left) s) in
      if left == 0
      then some (
          if ltb (length body) 2 then piece_overrun s else piece (take (length body - 2) body) [] s)
      else round

  -- The data of a chunk of that length, of which `left` may hold the front. Of the
  -- negative ones, -1 reads one byte if the buffer is empty; with all others `append` gets a size that no
  -- string has.
  pub read_piece : ℕ → ℤ → Bytes → Bytes → S → Option (Piece S)
  unfolding read_tail
  read_piece fuel (negsuc n) body left s =
      let tail = read_tail fuel 1 body s in
      if (n == 0) && (length left == 0) then tail else some (piece_overrun s)
  read_piece fuel (pos n) body left s =
      if leb (2 ^ 31) (n + 2)
      then some (piece_overrun s)
      else if leb (n + 2) (length left)
      then some (piece (body ++ take n left) (drop (n + 2) left) s)
      else read_tail fuel ((n + 2) - length left) (body ++ left) s

  module _ {M : Type 0} (p : Machine M ResponseEvent) (q : ChunkMachine M)
      (atoi : Bytes → HttpStatus) where
    -- What one round makes of the data in the buffer: the loop's next round is an argument.
    parse_round :
        (Bytes → ResponseParser M → S → Option (Head M S))
        → Bool
        → Bytes
        → ResponseParser M
        → S
        → Option (Head M S)
    parse_round next chunck data' r s =
        let (nparse, rest, r') = execute_response atoi p q chunck data' r in
        let again = next rest r' s in
        if response_has_error p r'
        then some (broken (v.close s))
        else if (length data' - nparse) == buff_size
        then some (broken (v.close s))
        else if response_is_finished p r'
        then some (parsed r' rest s)
        else again

    read_round :
        (Bytes → ResponseParser M → S → Option (Head M S))
        → Bool
        → Bytes
        → ResponseParser M
        → Transfer × S
        → Option (Head M S)
    unfolding parse_round
    read_round next chunck left r (moved [], s) = some (broken (v.close s))
    read_round next chunck left r (moved (c ∷ cs), s) =
        parse_round next chunck (left ++ (c ∷ cs)) r s
    read_round next chunck left r (failed code, s) = some (broken (v.close s))

    -- Both loops that feed the parser: the first round of a chunk's takes the data that is there, the
    -- other rounds read. The head of the response starts with no data. `none`: the fuel ran out.
    pub feed : Bool → ℕ → Bool → Bytes → ResponseParser M → S → Option (Head M S)
    unfolding read_round parse_round
    feed chunck zero begin left r s = none
    feed chunck (suc fuel) begin left r s =
        let next : Bytes → ResponseParser M → S → Option (Head M S) =
          λ left' r' s'. feed chunck fuel false left' r' s' in
        if not begin || (length left == 0)
        then read_round next chunck left r (v.read (buff_size - length left) s)
        else parse_round next chunck left r s

    pub recv_head : ℕ → S → Option (Head M S)
    unfolding feed
    recv_head fuel s = feed false fuel true [] (create_response_parser p) s

    recv_chunk_head : ℕ → Bytes → ResponseParser M → S → Option (Head M S)
    unfolding feed
    recv_chunk_head fuel left r s = feed true fuel true left r s

    after_piece :
        (Bytes → Bytes → ResponseParser M → S → Option (Reply S))
        → ResponseParser M
        → Piece S
        → Option (Reply S)
    after_piece next r (piece_cut s) = some (refused s)
    after_piece next r (piece_overrun s) = some (overrun s)
    after_piece next r (piece body left s) =
        let again = next body left r s in
        if q.chunks_done r.machine
        then some (accepted (record r.response { body = body }) s)
        else again

    after_chunk_head :
        ℕ
        → (Bytes → Bytes → ResponseParser M → S → Option (Reply S))
        → Bytes
        → Head M S
        → Option (Reply S)
    unfolding read_piece after_piece
    after_chunk_head fuel next body (broken s) = some (refused s)
    after_chunk_head fuel next body (parsed r left s) = do
      b ← read_piece fuel (q.content_len r.machine) body left s
      after_piece next r b

    -- `while (!client_parser.chunks_done)`, on `n` rounds; the loops inside have `fuel`.
    pub recv_chunks : ℕ → ℕ → Bytes → Bytes → ResponseParser M → S → Option (Reply S)
    unfolding recv_chunk_head after_chunk_head
    recv_chunks fuel zero body left r s = none
    recv_chunks fuel (suc n) body left r s = do
      h ← recv_chunk_head fuel left r s
      after_chunk_head fuel (λ body' left' r' s'. recv_chunks fuel n body' left' r' s') body h

    module _ (to_number : Bytes → Option ℕ) (resizes : ℕ → Bool) where
      -- Without chunks: the body has the announced length.
      recv_plain : ResponseParser M → BodyRead S → Reply S
      recv_plain r (cut s) = refused s
      recv_plain r (thrown s) = overrun s
      recv_plain r (whole body s) = accepted (record r.response { body = body }) s

      recv_body : ℕ → Head M S → Option (Reply S)
      unfolding recv_chunks recv_plain
      recv_body fuel (broken s) = some (refused s)
      recv_body fuel (parsed r left s) =
          if q.chunked r.machine then recv_chunks fuel fuel [] left r s else (do
            b ← read_body v resizes (response_content_length to_number r.response) left s
            some (recv_plain r b))

      -- `HttpConnection::recvResponse`
      pub recv_response : ℕ → S → Option (Reply S)
      unfolding recv_head recv_body
      recv_response fuel s = do h ← recv_head fuel s; recv_body fuel h

  -- `HttpConnection::sendRequest`: the size of the request as an `int`, also if it was not sent.
  unfoldable pub send_request : HttpRequest → S → Option (ℤ × S)
  send_request request s =
      let text = Request.to_string request in
      do d ← write_fix_size v text s; some (to_int32 (length text), d.stream)
