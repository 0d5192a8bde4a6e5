-- ===== src/Http/Parser.antt =====
-- http/HttpParser.h and http/HttpParser.cc: the callbacks of the request parser and its calls; those
-- of the response parser are in Parser/Reply. The
-- state machines that a generator made (http/http_request_parser.cc, http/http_response_parser.cc)
-- are a parameter: what they report for a piece of input.
pub mod Fields
pub mod Reply
use Prim.Native.Nat.{bit_and}
use qslary.Base.{
  ℕ, zero, suc, ◌+◌, ◌-◌, ◌*◌, Bool, true, false, not, ◌&&◌, ◌||◌, Option, List, [], ◌∷◌, ◌==◌, ltb,
  leb, if◌then◌else◌, length, take, drop,
}
use qslary.Base.Text.{Bytes, codes}
use qslary.Http.Method.{is_unknow, chars_to_http_method}
use qslary.Http.Status.{HttpStatus}
use qslary.Http.Request
use qslary.Http.Request.{HttpRequest, empty_request}
use qslary.Http.Response
use qslary.Http.Response.{HttpResponse, empty_response}

-- `strncmp(a, b, n) == 0`; the end of a list is a zero byte.
unfoldable pub strncmp_eq : ℕ → Bytes → Bytes → Bool
strncmp_eq zero a b = true
strncmp_eq (suc n) [] [] = true
strncmp_eq (suc n) [] (d ∷ ds) = d == 0
strncmp_eq (suc n) (c ∷ cs) [] = c == 0
strncmp_eq (suc n) (c ∷ cs) (d ∷ ds) = (c == d) && ((c == 0) || strncmp_eq n cs ds)

-- What the request machine calls back with: the input from `at` on, and a length.
pub data RequestEvent : Type 0 where
  request_method request_uri request_fragment request_path request_query : Bytes → ℕ → RequestEvent
  request_version header_done : Bytes → ℕ → RequestEvent
  http_field : Bytes → Bytes → RequestEvent

-- A generated machine with states M and events E. `execute` gives the events in order, the number of
-- bytes that it took, and the new state.
pub record Machine (M E : Type 0) : Type 0 where
  pub start : M
  pub execute : Bytes → M → List E × ℕ × M
  pub finish : M → Bool
  pub has_error : M → Bool

pub record RequestParser (M : Type 0) : Type 0 where
  pub machine : M
  pub request : HttpRequest
  pub error : ℕ

unfoldable pub create_request_parser : {M : Type 0} → Machine M RequestEvent → RequestParser M
create_request_parser p = record { machine = p.start; request = empty_request; error = 0 }

module _ {M : Type 0} where
  unfoldable pub set_error : ℕ → RequestParser M → RequestParser M
  set_error v r = record r { error = v }

  pub on_request_method : Bytes → RequestParser M → RequestParser M
  unfolding set_error
  on_request_method at r =
      let m = chars_to_http_method at in
      if is_unknow m
      then set_error 1000 r
      else record r { request = record r.request { method = m } }

  pub on_request_fragment : Bytes → ℕ → RequestParser M → RequestParser M
  on_request_fragment at length r = record r {
    request = record r.request { fragment = take length at };
  }

  pub on_request_path : Bytes → ℕ → RequestParser M → RequestParser M
  on_request_path at length r = record r { request = record r.request { path = take length at } }

  pub on_request_query : Bytes → ℕ → RequestParser M → RequestParser M
  on_request_query at length r = record r { request = record r.request { query = take length at } }

  pub on_request_version : Bytes → ℕ → RequestParser M → RequestParser M
  unfolding set_error strncmp_eq
  on_request_version at length r =
      if strncmp_eq length at (codes "HTTP/1.1")
      then record r { request = record r.request { version = 0x11 } }
      else if strncmp_eq length at (codes "HTTP/1.0")
      then record r { request = record r.request { version = 0x10 } }
      else set_error 1001 r

  -- A field with an empty name is dropped.
  unfoldable pub on_request_http_field : Bytes → Bytes → RequestParser M → RequestParser M
  on_request_http_field [] value r = r
  on_request_http_field (c ∷ cs) value r = record r {
    request = Request.set_header_entry (c ∷ cs) value r.request;
  }

  unfoldable pub on_request_event : RequestEvent → RequestParser M → RequestParser M
  unfolding on_request_method on_request_fragment on_request_path on_request_query
      on_request_version on_request_http_field
  on_request_event (request_method at length) r = on_request_method at r
  on_request_event (request_uri at length) r = r
  on_request_event (request_fragment at length) r = on_request_fragment at length r
  on_request_event (request_path at length) r = on_request_path at length r
  on_request_event (request_query at length) r = on_request_query at length r
  on_request_event (request_version at length) r = on_request_version at length r
  on_request_event (header_done at length) r = r
  on_request_event (http_field field value) r = on_request_http_field field value r

  -- The callbacks of one call, in order.
  unfoldable pub on_request_events : List RequestEvent → RequestParser M → RequestParser M
  on_request_events [] r = r
  on_request_events (e ∷ es) r = on_request_events es (on_request_event e r)

module _ {M : Type 0} (p : Machine M RequestEvent) where
  -- `HttpRequestParser::execute`: the number of bytes taken, what is left of the data after the
  -- `memmove`, and the parser.
  unfoldable pub execute_request : Bytes → RequestParser M → ℕ × Bytes × RequestParser M
  execute_request input r =
      let (events, offset, machine') = p.execute input r.machine in
      (offset, drop offset input, record (on_request_events events r) { machine = machine' })

  unfoldable pub request_is_finished : RequestParser M → Bool
  request_is_finished r = p.finish r.machine

  unfoldable pub request_has_error : RequestParser M → Bool
  request_has_error r = not (r.error == 0) || p.has_error r.machine

  -- `cast` is `lexical_cast<uint64_t>`; a value that is no number counts as 0.
  unfoldable pub request_content_length : (Bytes → Option ℕ) → RequestParser M → ℕ
  unfolding Request.get_header_entry_as
  request_content_length cast r =
      (Request.get_header_entry_as cast (codes "content-length") r.request 0).1
