-- ===== src/Http/Parser/Reply.antt =====
-- The response parser of http/HttpParser.cc. `atoi` is the C library's.
use qslary.Base.{ℕ, Bool, not, ◌||◌, Option, List, [], ◌∷◌, ◌==◌, if◌then◌else◌, length, take, drop}
use qslary.Base.Int.{ℤ}
use qslary.Base.Text.{Bytes, codes}
use qslary.Http.Status.{HttpStatus}
use qslary.Http.Response
use qslary.Http.Response.{HttpResponse, empty_response}
use qslary.Http.Parser.{strncmp_eq, Machine}

-- What the response machine calls back with: the input from `at` on, and a length.
pub data ResponseEvent : Type 0 where
  reason_phrase status_code chunk_size response_version header_done last_chunk :
      Bytes → ℕ → ResponseEvent
  http_field : Bytes → Bytes → ResponseEvent

-- The parts of the generated machine that only the client uses: the reset of its state, and the
-- fields that it fills in.
pub record ChunkMachine (M : Type 0) : Type 0 where
  pub init : M → M
  pub chunked : M → Bool
  pub content_len : M → ℤ
  pub chunks_done : M → Bool

pub record ResponseParser (M : Type 0) : Type 0 where
  pub machine : M
  pub response : HttpResponse
  pub error : ℕ

unfoldable pub create_response_parser : {M : Type 0} → Machine M ResponseEvent → ResponseParser M
create_response_parser p = record { machine = p.start; response = empty_response; error = 0 }

module _ {M : Type 0} (atoi : Bytes → HttpStatus) where
  on_response_reason : Bytes → ℕ → ResponseParser M → ResponseParser M
  on_response_reason at length r = record r {
    response = record r.response { reason = take length at };
  }

  on_response_status : Bytes → ResponseParser M → ResponseParser M
  on_response_status at r = record r { response = record r.response { status = atoi at } }

  unfoldable pub on_response_version : Bytes → ℕ → ResponseParser M → ResponseParser M
  unfolding strncmp_eq
  on_response_version at length r =
      if strncmp_eq length at (codes "HTTP/1.1")
      then record r { response = record r.response { version = 0x11 } }
      else if strncmp_eq length at (codes "HTTP/1.0")
      then record r { response = record r.response { version = 0x10 } }
      else record r { error = 1001 }

  -- A field with an empty name is dropped.
  unfoldable pub on_response_http_field : Bytes → Bytes → ResponseParser M → ResponseParser M
  on_response_http_field [] value r = r
  on_response_http_field (c ∷ cs) value r = record r {
    response = Response.set_header_entry (c ∷ cs) value r.response;
  }

  unfoldable pub on_response_event : ResponseEvent → ResponseParser M → ResponseParser M
  unfolding on_response_reason on_response_status on_response_version on_response_http_field
  on_response_event (reason_phrase at length) r = on_response_reason at length r
  on_response_event (status_code at length) r = on_response_status at r
  on_response_event (chunk_size at length) r = r
  on_response_event (response_version at length) r = on_response_version at length r
  on_response_event (header_done at length) r = r
  on_response_event (last_chunk at length) r = r
  on_response_event (http_field field value) r = on_response_http_field field value r

  -- The callbacks of one call, in order.
  unfoldable pub on_response_events : List ResponseEvent → ResponseParser M → ResponseParser M
  on_response_events [] r = r
  on_response_events (e ∷ es) r = on_response_events es (on_response_event e r)

  -- `HttpResponseParser::execute`: for a chunk the machine starts anew with each piece of input.
  unfoldable pub execute_response :
      Machine M ResponseEvent
      → ChunkMachine M
      → Bool
      → Bytes
      → ResponseParser M
      → ℕ × Bytes × ResponseParser M
  execute_response p q chunck input r =
      let (events, offset, machine') =
        p.execute input (if chunck then q.init r.machine else r.machine) in
      (offset, drop offset input, record (on_response_events events r) { machine = machine' })

module _ {M : Type 0} (p : Machine M ResponseEvent) where
  unfoldable pub response_is_finished : ResponseParser M → Bool
  response_is_finished r = p.finish r.machine

  unfoldable pub response_has_error : ResponseParser M → Bool
  response_has_error r = not (r.error == 0) || p.has_error r.machine

-- `cast` is `lexical_cast<uint64_t>`; a value that is no number counts as 0.
unfoldable pub response_content_length : (Bytes → Option ℕ) → HttpResponse → ℕ
response_content_length cast r = (Response.get_header_entry_as cast (codes "content-length") r 0).1
