-- ===== src/Http/Client/Fields.antt =====
-- What the requests of the clients carry.
use qslary.Base.{
  ◌≡◌, refl, ◌∙◌, Bool, true, false, not, ◌&&◌, ◌||◌, List, [], ◌∷◌, if◌then◌else◌, and_right,
  arith,
}
use qslary.Base.Text.{Bytes, codes, is_empty, bytes_eq, fold_case, strcasecmp_eq}
use qslary.Base.OrdMap.{find}
use qslary.Http.Headers.{has_entry}
use qslary.Http.Method.{HttpMethod}
use qslary.Http.Request.{
  HttpRequest, empty_request, get_header_entry, has_header_entry, set_header_entry,
}
use qslary.Http.Request.Laws.{get_header_entry-set_header_entry}
use qslary.Http.Client.{add_header, add_headers, with_host, do_request, pool_request}

-- One of the headers asks to keep the connection.
abbrev pub keeps_alive : List (Bytes × Bytes) → Bool
keeps_alive [] = false
keeps_alive ((key, value) ∷ headers) =
    (strcasecmp_eq key (codes "connection") && strcasecmp_eq value (codes "keep-alive"))
    || keeps_alive headers

add_header_connection :
    (header : Bytes × Bytes) (state : Bool × HttpRequest)
    → has_header_entry (codes "connection") (add_header header state).1
      ≡ has_header_entry (codes "connection") state.1
unfolding add_header has_header_entry
add_header_connection (key, value) (has_host, req) =
    ground (arith, (get_header_entry-set_header_entry (codes "connection") key value req).1)

add_headers_connection :
    (headers : List (Bytes × Bytes)) (state : Bool × HttpRequest)
    → has_header_entry (codes "connection") (add_headers headers state).1
      ≡ has_header_entry (codes "connection") state.1
unfolding add_headers
add_headers_connection [] state = refl
add_headers_connection (header ∷ headers) state =
    add_headers_connection headers (add_header header state) ∙ add_header_connection header state

add_header_close :
    (key value : Bytes) (state : Bool × HttpRequest)
    → (add_header (key, value) state).1.close ≡ (
        state.1.close
        && not (strcasecmp_eq key (codes "connection") && strcasecmp_eq value (codes "keep-alive")))
unfolding add_header set_header_entry
add_header_close key value (has_host, req) = ground arith

add_headers_close :
    (headers : List (Bytes × Bytes)) (state : Bool × HttpRequest)
    → (add_headers headers state).1.close ≡ (state.1.close && not (keeps_alive headers))
unfolding add_headers
add_headers_close [] state = ground arith
add_headers_close ((key, value) ∷ headers) state = ground (
  arith,
  add_headers_close headers (add_header (key, value) state),
  add_header_close key value state,
)

host_is_other : strcasecmp_eq (codes "Host") (codes "connection") ≡ false
unfolding strcasecmp_eq bytes_eq fold_case
host_is_other = refl

with_host_lem :
    (host : Bytes) (state : Bool × HttpRequest)
    → (has_header_entry (codes "connection") (with_host host state)
        ≡ has_header_entry (codes "connection") state.1)
      × ((with_host host state).close ≡ state.1.close)
unfolding with_host set_header_entry
with_host_lem host (has_host, req) = ground (
  arith,
  host_is_other,
  get_header_entry-set_header_entry (codes "connection") (codes "Host") host req,
)

-- The request of `DoRequest` has no connection header, whatever the caller's headers are; it is to
-- keep the connection exactly if one of them says so, in any case.
pub do_request-keeps_alive :
    (method : HttpMethod) (path query fragment host : Bytes) (headers : List (Bytes × Bytes))
    (body : Bytes)
    → let req = do_request method path query fragment host headers body in
      (has_header_entry (codes "connection") req ≡ false) × (req.close ≡ not (keeps_alive headers))
unfolding do_request has_header_entry has_entry find
do_request-keeps_alive method path query fragment host headers body =
    let start : HttpRequest = record empty_request {
      path = path;
      method = method;
      query = query;
      fragment = fragment;
    } in
    let state = add_headers headers (false, start) in
    (
      (with_host_lem host state).0 ∙ add_headers_connection headers (false, start),
      (with_host_lem host state).1 ∙ add_headers_close headers (false, start),
    )

-- The request of a pool has no connection header either, and always is to keep the connection.
pub pool_request_keeps :
    (method : HttpMethod) (url host vhost : Bytes) (headers : List (Bytes × Bytes)) (body : Bytes)
    → let req = pool_request method url host vhost headers body in
      (has_header_entry (codes "connection") req ≡ false) × (req.close ≡ false)
unfolding pool_request has_header_entry has_entry find
pool_request_keeps method url host vhost headers body =
    let start : HttpRequest = record empty_request { path = url; method = method; close = false } in
    let state = add_headers headers (false, start) in
    let name = if is_empty vhost then host else vhost in
    (
      (with_host_lem name state).0 ∙ add_headers_connection headers (false, start),
      (with_host_lem name state).1 ∙ add_headers_close headers (false, start),
    )

-- The caller gives no host, in any case of its name.
abbrev pub without_host : List (Bytes × Bytes) → Bool
without_host [] = true
without_host ((key, value) ∷ headers) =
    not (strcasecmp_eq key (codes "host")) && without_host headers

add_headers_host :
    (headers : List (Bytes × Bytes)) (has_host : Bool) (req : HttpRequest)
    → without_host headers ≡ true
    → (add_headers headers (has_host, req)).0 ≡ has_host
unfolding add_headers add_header
add_headers_host [] has_host req h = refl
add_headers_host ((key, value) ∷ headers) has_host req h =
    let rest =
      add_headers_host headers (add_header (key, value) (has_host, req)).0
        (add_header (key, value) (has_host, req)).1
        (and_right (not (strcasecmp_eq key (codes "host"))) _ h) in
    rest ∙ ground arith

host_any_case : strcasecmp_eq (codes "Host") (codes "host") ≡ true
unfolding strcasecmp_eq bytes_eq fold_case
host_any_case = refl

-- Where the caller gives no host, the pool's request names the virtual host, or the host if that is
-- empty.
pub pool_request-without_host :
    (method : HttpMethod) (url host vhost : Bytes) (headers : List (Bytes × Bytes)) (body : Bytes)
    → without_host headers ≡ true
    → get_header_entry (codes "host") (pool_request method url host vhost headers body)
      ≡ (if is_empty vhost then host else vhost)
unfolding pool_request get_header_entry with_host
pool_request-without_host method url host vhost headers body h =
    let start : HttpRequest = record empty_request { path = url; method = method; close = false } in
    let name = if is_empty vhost then host else vhost in
    ground (
      arith,
      host_any_case,
      add_headers_host headers false start h,
      (get_header_entry-set_header_entry (codes "host") (codes "Host") name
          (add_headers headers (false, start)).1).0,
    )
