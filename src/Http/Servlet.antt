-- ===== src/Http/Servlet.antt =====
-- http/Servlet.h and http/Servlet.cc: servlets and their dispatch by the path of a request. A servlet
-- is the function of its `handle`, which also gets the session: it may read, write and close it.
pub mod Dispatch
use qslary.Base.{ℕ, ◌≡◌, Bool, Option, none, some, List, [], ◌∷◌, ◌++◌, if◌then◌else◌}
use qslary.Base.Text.{Bytes, codes, bytes_eq}
use qslary.Base.Fault.{◌>>=◌}
use qslary.Http.Request.{HttpRequest}
use qslary.Http.Response
use qslary.Http.Response.{HttpResponse}
use qslary.Http.Status.{status_not_found}

-- `handle` of a servlet over sessions `S`: the result code, the response that it has filled in, and the
-- session.
abbrev pub Servlet : Type 0 → Type 0
Servlet S = HttpRequest → HttpResponse → S → ℕ × HttpResponse × S

-- A function servlet calls its function.
unfoldable pub function_servlet : {S : Type 0} → Servlet S → Servlet S
function_servlet cb request response session = cb request response session

-- `content_` of a NotFoundServlet.
not_found_content : Bytes → Bytes
not_found_content name =
    codes
      "<html><head><title>404 Not Found</title></head><body><center><h1>404 Not Found</h1></center><hr><center>"
    ++ (name ++ codes "</center></body></html>")

unfoldable pub not_found_servlet : {S : Type 0} → Bytes → Servlet S
unfolding not_found_content
not_found_servlet name request response session =
    let response' : HttpResponse = record response { status = status_not_found } in
    let response'' : HttpResponse =
      Response.set_header_entry (codes "Content-Type") (codes "text/html")
        (Response.set_header_entry (codes "Server") (codes "sylar/1.0.0") response') in
    (0, record response'' { body = not_found_content name }, session)

-- `mp_data` is a hash map by the exact path, whose order no operation shows; `v_data` is a vector.
pub record ServletDispatch (S : Type 0) : Type 0 where
  pub mp_data : List (Bytes × Servlet S)
  pub v_data : List (Bytes × Servlet S)
  pub default_servlet : Servlet S

unfoldable pub create : {S : Type 0} → ServletDispatch S
create = record {
  mp_data = [];
  v_data = [];
  default_servlet = not_found_servlet (codes "NotFound");
}

unfoldable pub set_default_servlet :
    {S : Type 0} → Servlet S → ServletDispatch S → ServletDispatch S
set_default_servlet slt d = record d { default_servlet = slt }

unfoldable pub lookup : {S : Type 0} → Bytes → List (Bytes × Servlet S) → Option (Servlet S)
lookup url [] = none
lookup url ((u, slt) ∷ m) = if bytes_eq u url then some slt else lookup url m

-- `unordered_map::insert`: an old entry stays.
insert : {S : Type 0} → Bytes → Servlet S → List (Bytes × Servlet S) → List (Bytes × Servlet S)
insert url slt [] = (url, slt) ∷ []
insert url slt ((u, old) ∷ m) = if bytes_eq u url then (u, old) ∷ m else (u, old) ∷ insert url slt m

-- Takes the first entry of the path away.
remove : {S : Type 0} → Bytes → List (Bytes × Servlet S) → List (Bytes × Servlet S)
remove url [] = []
remove url ((u, old) ∷ m) = if bytes_eq u url then m else (u, old) ∷ remove url m

unfoldable pub add_servlet :
    {S : Type 0} → Bytes → Servlet S → ServletDispatch S → ServletDispatch S
unfolding insert
add_servlet url slt d = record d { mp_data = insert url slt d.mp_data }

unfoldable pub add_global_servlet :
    {S : Type 0} → Bytes → Servlet S → ServletDispatch S → ServletDispatch S
add_global_servlet url slt d = record d { v_data = d.v_data ++ ((url, slt) ∷ []) }

unfoldable pub del_servlet : {S : Type 0} → Bytes → ServletDispatch S → ServletDispatch S
unfolding remove
del_servlet url d = record d { mp_data = remove url d.mp_data }

unfoldable pub del_global_servlet : {S : Type 0} → Bytes → ServletDispatch S → ServletDispatch S
unfolding remove
del_global_servlet url d = record d { v_data = remove url d.v_data }

unfoldable pub get_servlet : {S : Type 0} → Bytes → ServletDispatch S → Option (Servlet S)
unfolding lookup
get_servlet url d = lookup url d.mp_data

unfoldable pub get_global_servlet : {S : Type 0} → Bytes → ServletDispatch S → Option (Servlet S)
unfolding lookup
get_global_servlet url d = lookup url d.v_data

-- `mp_data_.find(url)`: the entry, or the end.
unfoldable pub find : {S : Type 0} → Bytes → List (Bytes × Servlet S) → Option (Bytes × Servlet S)
find url [] = none
find url ((u, slt) ∷ m) = if bytes_eq u url then some (u, slt) else find url m

-- The loop over the global servlets, which reads `it` and not its own iterator: to read the end is a
-- fault. `fnmatch` says whether the function of that name returns 0.
unfoldable pub match_global :
    {S : Type 0}
    → (Bytes → Bytes → Bool)
    → Option (Bytes × Servlet S)
    → Bytes
    → List (Bytes × Servlet S)
    → Servlet S
    → Option (Servlet S)
match_global fnmatch it url [] default_servlet = some default_servlet
match_global fnmatch it url (pv ∷ v_data) default_servlet = do
  (pattern_, slt) ← it
  let rest = match_global fnmatch it url v_data default_servlet
  if fnmatch pattern_ url then some slt else rest

unfoldable pub get_match_servlet :
    {S : Type 0} → (Bytes → Bytes → Bool) → Bytes → ServletDispatch S → Option (Servlet S)
unfolding find match_global
get_match_servlet {S = S} fnmatch url d =
    let it = find url d.mp_data in
    elim it as (λ found. Option (Servlet S)) [
      | some (u, slt) ↦ some slt
      | none ↦ match_global fnmatch it url d.v_data d.default_servlet
    ]

-- `ServletDispatch::handle`; `none` is the fault.
unfoldable pub handle :
    {S : Type 0}
    → (Bytes → Bytes → Bool)
    → HttpRequest
    → HttpResponse
    → ServletDispatch S
    → S
    → Option (ℕ × HttpResponse × S)
handle fnmatch request response d session = do
  slt ← get_match_servlet fnmatch request.path d
  some (slt request response session)
