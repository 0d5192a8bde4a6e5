-- ===== src/Http/Method.antt =====
-- `HttpMethod` of http/Http.h and its conversions in http/Http.cc, whose cases the macro
-- HTTP_METHOD_MAP lists.
use qslary.Base.{◌≡◌, refl, Bool, true, false, List, [], ◌∷◌, ◌++◌, if◌then◌else◌}
use qslary.Base.Text.{Bytes, codes, starts_with}

pub data HttpMethod : Type 0 where
  delete get head post put connect options trace copy lock mkcol move propfind : HttpMethod
  proppatch search unlock bind rebind unbind acl report mkactivity checkout merge : HttpMethod
  msearch notify subscribe unsubscribe patch purge mkcalendar link unlink source : HttpMethod
  unknow : HttpMethod

-- The names in the order of the map, each with its method.
abbrev method_map : List (Bytes × HttpMethod)
method_map =
    (codes "DELETE", HttpMethod.delete)
    ∷ (codes "GET", HttpMethod.get)
    ∷ (codes "HEAD", HttpMethod.head)
    ∷ (codes "POST", HttpMethod.post)
    ∷ (codes "PUT", HttpMethod.put)
    ∷ (codes "CONNECT", HttpMethod.connect)
    ∷ (codes "OPTIONS", HttpMethod.options)
    ∷ (codes "TRACE", HttpMethod.trace)
    ∷ (codes "COPY", HttpMethod.copy)
    ∷ (codes "LOCK", HttpMethod.lock)
    ∷ (codes "MKCOL", HttpMethod.mkcol)
    ∷ (codes "MOVE", HttpMethod.move)
    ∷ (codes "PROPFIND", HttpMethod.propfind)
    ∷ (codes "PROPPATCH", HttpMethod.proppatch)
    ∷ (codes "SEARCH", HttpMethod.search)
    ∷ (codes "UNLOCK", HttpMethod.unlock)
    ∷ (codes "BIND", HttpMethod.bind)
    ∷ (codes "REBIND", HttpMethod.rebind)
    ∷ (codes "UNBIND", HttpMethod.unbind)
    ∷ (codes "ACL", HttpMethod.acl)
    ∷ (codes "REPORT", HttpMethod.report)
    ∷ (codes "MKACTIVITY", HttpMethod.mkactivity)
    ∷ (codes "CHECKOUT", HttpMethod.checkout)
    ∷ (codes "MERGE", HttpMethod.merge)
    ∷ (codes "MSEARCH", HttpMethod.msearch)
    ∷ (codes "NOTIFY", HttpMethod.notify)
    ∷ (codes "SUBSCRIBE", HttpMethod.subscribe)
    ∷ (codes "UNSUBSCRIBE", HttpMethod.unsubscribe)
    ∷ (codes "PATCH", HttpMethod.patch)
    ∷ (codes "PURGE", HttpMethod.purge)
    ∷ (codes "MKCALENDAR", HttpMethod.mkcalendar)
    ∷ (codes "LINK", HttpMethod.link)
    ∷ (codes "UNLINK", HttpMethod.unlink)
    ∷ (codes "SOURCE", HttpMethod.source)
    ∷ []

first_match : Bytes → List (Bytes × HttpMethod) → HttpMethod
first_match method [] = HttpMethod.unknow
first_match method ((name, m) ∷ rest) =
    let later = first_match method rest in if starts_with name method then m else later

-- The first name in the map with which the text begins.
pub string_to_http_method : Bytes → HttpMethod
unfolding first_match starts_with
string_to_http_method method = first_match method method_map

unfoldable pub chars_to_http_method : Bytes → HttpMethod
unfolding first_match starts_with
chars_to_http_method method = first_match method method_map

-- `m == HttpMethod::UNKNOW`
unfoldable pub is_unknow : HttpMethod → Bool
is_unknow HttpMethod.unknow = true
is_unknow m = false

unfoldable pub http_method_to_string : HttpMethod → Bytes
http_method_to_string HttpMethod.delete = codes "DELETE"
http_method_to_string HttpMethod.get = codes "GET"
http_method_to_string HttpMethod.head = codes "HEAD"
http_method_to_string HttpMethod.post = codes "POST"
http_method_to_string HttpMethod.put = codes "PUT"
http_method_to_string HttpMethod.connect = codes "CONNECT"
http_method_to_string HttpMethod.options = codes "OPTIONS"
http_method_to_string HttpMethod.trace = codes "TRACE"
http_method_to_string HttpMethod.copy = codes "COPY"
http_method_to_string HttpMethod.lock = codes "LOCK"
http_method_to_string HttpMethod.mkcol = codes "MKCOL"
http_method_to_string HttpMethod.move = codes "MOVE"
http_method_to_string HttpMethod.propfind = codes "PROPFIND"
http_method_to_string HttpMethod.proppatch = codes "PROPPATCH"
http_method_to_string HttpMethod.search = codes "SEARCH"
http_method_to_string HttpMethod.unlock = codes "UNLOCK"
http_method_to_string HttpMethod.bind = codes "BIND"
http_method_to_string HttpMethod.rebind = codes "REBIND"
http_method_to_string HttpMethod.unbind = codes "UNBIND"
http_method_to_string HttpMethod.acl = codes "ACL"
http_method_to_string HttpMethod.report = codes "REPORT"
http_method_to_string HttpMethod.mkactivity = codes "MKACTIVITY"
http_method_to_string HttpMethod.checkout = codes "CHECKOUT"
http_method_to_string HttpMethod.merge = codes "MERGE"
http_method_to_string HttpMethod.msearch = codes "MSEARCH"
http_method_to_string HttpMethod.notify = codes "NOTIFY"
http_method_to_string HttpMethod.subscribe = codes "SUBSCRIBE"
http_method_to_string HttpMethod.unsubscribe = codes "UNSUBSCRIBE"
http_method_to_string HttpMethod.patch = codes "PATCH"
http_method_to_string HttpMethod.purge = codes "PURGE"
http_method_to_string HttpMethod.mkcalendar = codes "MKCALENDAR"
http_method_to_string HttpMethod.link = codes "LINK"
http_method_to_string HttpMethod.unlink = codes "UNLINK"
http_method_to_string HttpMethod.source = codes "SOURCE"
http_method_to_string HttpMethod.unknow = codes "UNKNOW"

-- A method survives being printed and read back, also with any text behind its name, as in a
-- request line. The text of `UNKNOW` begins with no name of the map, whatever follows it.
pub string_to_http_method-http_method_to_string :
    (m : HttpMethod) (rest : Bytes) → string_to_http_method (http_method_to_string m ++ rest) ≡ m
unfolding string_to_http_method http_method_to_string
string_to_http_method-http_method_to_string HttpMethod.delete rest = refl
string_to_http_method-http_method_to_string HttpMethod.get rest = refl
string_to_http_method-http_method_to_string HttpMethod.head rest = refl
string_to_http_method-http_method_to_string HttpMethod.post rest = refl
string_to_http_method-http_method_to_string HttpMethod.put rest = refl
string_to_http_method-http_method_to_string HttpMethod.connect rest = refl
string_to_http_method-http_method_to_string HttpMethod.options rest = refl
string_to_http_method-http_method_to_string HttpMethod.trace rest = refl
string_to_http_method-http_method_to_string HttpMethod.copy rest = refl
string_to_http_method-http_method_to_string HttpMethod.lock rest = refl
string_to_http_method-http_method_to_string HttpMethod.mkcol rest = refl
string_to_http_method-http_method_to_string HttpMethod.move rest = refl
string_to_http_method-http_method_to_string HttpMethod.propfind rest = refl
string_to_http_method-http_method_to_string HttpMethod.proppatch rest = refl
string_to_http_method-http_method_to_string HttpMethod.search rest = refl
string_to_http_method-http_method_to_string HttpMethod.unlock rest = refl
string_to_http_method-http_method_to_string HttpMethod.bind rest = refl
string_to_http_method-http_method_to_string HttpMethod.rebind rest = refl
string_to_http_method-http_method_to_string HttpMethod.unbind rest = refl
string_to_http_method-http_method_to_string HttpMethod.acl rest = refl
string_to_http_method-http_method_to_string HttpMethod.report rest = refl
string_to_http_method-http_method_to_string HttpMethod.mkactivity rest = refl
string_to_http_method-http_method_to_string HttpMethod.checkout rest = refl
string_to_http_method-http_method_to_string HttpMethod.merge rest = refl
string_to_http_method-http_method_to_string HttpMethod.msearch rest = refl
string_to_http_method-http_method_to_string HttpMethod.notify rest = refl
string_to_http_method-http_method_to_string HttpMethod.subscribe rest = refl
string_to_http_method-http_method_to_string HttpMethod.unsubscribe rest = refl
string_to_http_method-http_method_to_string HttpMethod.patch rest = refl
string_to_http_method-http_method_to_string HttpMethod.purge rest = refl
string_to_http_method-http_method_to_string HttpMethod.mkcalendar rest = refl
string_to_http_method-http_method_to_string HttpMethod.link rest = refl
string_to_http_method-http_method_to_string HttpMethod.unlink rest = refl
string_to_http_method-http_method_to_string HttpMethod.source rest = refl
string_to_http_method-http_method_to_string HttpMethod.unknow rest = refl
