-- ===== src/Http/Servlet/Dispatch.antt =====
-- Which servlet answers a request.
use qslary.Base.{Bool, ◌≡◌, none, some, List, [], ◌∷◌, if◌then◌else◌, arith}
use qslary.Base.Text.{Bytes, codes, bytes_eq, bytes_eq→eq, bytes_eq_refl}
use qslary.Http.Request.{HttpRequest}
use qslary.Http.Response.{HttpResponse}
use qslary.Http.Servlet.{
  Servlet, ServletDispatch, create, lookup, insert, add_servlet, get_servlet, get_match_servlet,
  handle, not_found_servlet, find, match_global,
}

lookup-insert :
    {S : Type 0} (j k : Bytes) (slt : Servlet S) (m : List (Bytes × Servlet S))
    → lookup j (insert k slt m) ≡ (
        if bytes_eq k j
        then (elim (lookup k m) [ none ↦ some slt | some old ↦ some old ])
        else lookup j m)
unfolding lookup insert
lookup-insert j k slt [] = ground arith
lookup-insert j k slt ((u, old) ∷ m) = ground (
  arith,
  lookup-insert j k slt m,
  bytes_eq→eq k j,
  bytes_eq→eq u k,
  bytes_eq→eq u j,
  bytes_eq_refl k,
  bytes_eq_refl u,
  bytes_eq_refl j,
)

-- A servlet that is added answers its path, unless one was there: then that one stays. No other
-- path changes its servlet.
pub get_servlet-add_servlet :
    {S : Type 0} (j k : Bytes) (slt : Servlet S) (d : ServletDispatch S)
    → get_servlet j (add_servlet k slt d) ≡ (
        if bytes_eq k j
        then (elim (get_servlet k d) [ none ↦ some slt | some old ↦ some old ])
        else get_servlet j d)
unfolding get_servlet add_servlet
get_servlet-add_servlet j k slt d = lookup-insert j k slt d.mp_data

-- A dispatch without global servlets answers every path that no servlet was added for by status 404
-- and the page of the default servlet, and a path with a servlet by that servlet.
pub handle-add_servlet :
    {S : Type 0} (fnmatch : Bytes → Bytes → Bool) (k : Bytes) (slt : Servlet S)
    (request : HttpRequest) (response : HttpResponse) (session : S)
    → handle fnmatch request response (add_servlet k slt create) session ≡ (
        if bytes_eq k request.path
        then some (slt request response session)
        else some (not_found_servlet (codes "NotFound") request response session))
unfolding handle get_match_servlet add_servlet create insert find match_global
handle-add_servlet fnmatch k slt request response session = ground arith
