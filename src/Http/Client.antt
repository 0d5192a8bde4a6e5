-- ===== src/Http/Client.antt =====
-- The requests that the clients of http/HttpConnection.cc build: `HttpConnection::DoRequest` and
-- `HttpConnectionPool::doRequest`. The caller's headers come in the order of their map.
pub mod Fields
pub mod Receive
pub mod Exchange
use qslary.Base.{ℕ, Bool, true, false, not, ◌&&◌, List, [], ◌∷◌, ◌++◌, if◌then◌else◌}
use qslary.Base.Text.{Bytes, codes, is_empty, strcasecmp_eq}
use qslary.Http.Method.{HttpMethod}
use qslary.Http.Request.{HttpRequest, empty_request, set_header_entry}

-- One round of the loop: whether a host was given, and the request.
unfoldable pub add_header : Bytes × Bytes → Bool × HttpRequest → Bool × HttpRequest
add_header (key, value) (has_host, req) =
    if strcasecmp_eq key (codes "connection")
    then (
      has_host,
      (if strcasecmp_eq value (codes "keep-alive") then record req { close = false } else req),
    )
    else (
      (if not has_host && strcasecmp_eq key (codes "host") then not (is_empty value) else has_host),
      set_header_entry key value req,
    )

unfoldable pub add_headers : List (Bytes × Bytes) → Bool × HttpRequest → Bool × HttpRequest
unfolding add_header
add_headers [] state = state
add_headers (header ∷ headers) state = add_headers headers (add_header header state)

-- `if (!has_host) req->setHeaderEntry("Host", ...)`
unfoldable pub with_host : Bytes → Bool × HttpRequest → HttpRequest
with_host host (has_host, req) = if has_host then req else set_header_entry (codes "Host") host req

-- The request of `HttpConnection::DoRequest`, for the parts of the URI.
pub do_request :
    HttpMethod → Bytes → Bytes → Bytes → Bytes → List (Bytes × Bytes) → Bytes → HttpRequest
unfolding add_headers with_host
do_request method path query fragment host headers body =
    let req : HttpRequest = record empty_request {
      path = path;
      method = method;
      query = query;
      fragment = fragment;
    } in
    record (with_host host (add_headers headers (false, req))) { body = body }

-- The request of `HttpConnectionPool::doRequest`, which keeps the connection.
pub pool_request : HttpMethod → Bytes → Bytes → Bytes → List (Bytes × Bytes) → Bytes → HttpRequest
unfolding add_headers with_host
pool_request method url host vhost headers body =
    let req : HttpRequest = record empty_request { path = url; method = method; close = false } in
    record (with_host (if is_empty vhost then host else vhost) (add_headers headers (false, req))) {
      body = body;
    }

-- The target that `doGet`, `doPost` and `doRequest` print of a URI.
unfoldable pub target : Bytes → Bytes → Bytes → Bytes
target path query fragment =
    path
    ++ ((if is_empty query then [] else codes "?")
        ++ (query ++ ((if is_empty fragment then [] else codes "#") ++ fragment)))
