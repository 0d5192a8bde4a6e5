-- ===== src/Http/Request.antt =====
-- `HttpRequest` of http/Http.h and http/Http.cc.
pub mod Laws
pub mod Size
use Prim.Native.Nat.{bit_and}
use qslary.Base.{ℕ, ◌/◌, Bool, true, false, not, Option, List, [], ◌∷◌, ◌++◌, if◌then◌else◌, length}
use qslary.Base.Text.{Bytes, codes, bytes_eq, strcasecmp_eq, is_empty}
use qslary.Base.Decimal.{decimal}
use qslary.Http.Headers.{HttpMap, get_entry, has_entry, set_entry, del_entry, get_as}
use qslary.Http.Wire.{crlf, dump_headers, dump_version}
use qslary.Http.Method.{HttpMethod, http_method_to_string}
use qslary.Http.Status.{HttpStatus, status_ok}

pub record HttpRequest : Type 0 where
  pub method : HttpMethod
  pub protocol : Bytes
  pub version : ℕ
  pub status : HttpStatus
  pub close : Bool
  pub url : Bytes
  pub host : Bytes
  pub path : Bytes
  pub query : Bytes
  pub fragment : Bytes
  pub body : Bytes
  pub headers : HttpMap
  pub parmas : HttpMap
  pub cookies : HttpMap

-- The default constructor.
abbrev pub empty_request : HttpRequest
empty_request = record {
  method = HttpMethod.get;
  protocol = [];
  version = 0;
  status = status_ok;
  close = true;
  url = [];
  host = [];
  path = codes "/";
  query = [];
  fragment = [];
  body = [];
  headers = [];
  parmas = [];
  cookies = [];
}

pub create : HttpMethod → HttpStatus → ℕ → Bool → HttpRequest
create method status version close = record empty_request {
  method = method;
  version = version;
  status = status;
  close = close;
  path = [];
}

unfoldable pub get_header_entry : Bytes → HttpRequest → Bytes
get_header_entry key r = get_entry key r.headers

pub get_parma_entry : Bytes → HttpRequest → Bytes
get_parma_entry key r = get_entry key r.parmas

pub get_cookis_entry : Bytes → HttpRequest → Bytes
get_cookis_entry key r = get_entry key r.cookies

unfoldable pub has_header_entry : Bytes → HttpRequest → Bool
has_header_entry key r = has_entry key r.headers

unfoldable pub set_header_entry : Bytes → Bytes → HttpRequest → HttpRequest
set_header_entry key value r = record r { headers = set_entry key value r.headers }

pub set_parma_entry : Bytes → Bytes → HttpRequest → HttpRequest
set_parma_entry key value r = record r { parmas = set_entry key value r.parmas }

pub set_cookies_entry : Bytes → Bytes → HttpRequest → HttpRequest
set_cookies_entry key value r = record r { cookies = set_entry key value r.cookies }

pub del_header_entry : Bytes → HttpRequest → HttpRequest
del_header_entry key r = record r { headers = del_entry key r.headers }

pub del_parma_entry : Bytes → HttpRequest → HttpRequest
del_parma_entry key r = record r { parmas = del_entry key r.parmas }

pub del_cookies_entry : Bytes → HttpRequest → HttpRequest
del_cookies_entry key r = record r { cookies = del_entry key r.cookies }

unfoldable pub get_header_entry_as {ℓ} :
    {A : Type ℓ} → (Bytes → Option A) → Bytes → HttpRequest → A → Bool × A
get_header_entry_as cast key r value = get_as cast key r.headers value

-- A connection header that says keep-alive keeps the connection, any other closes it, and without
-- one, or with an empty one, `close` stays. `cast` is `lexical_cast<std::string>`.
unfoldable pub init : (Bytes → Option Bytes) → HttpRequest → HttpRequest
unfolding get_header_entry_as
init cast r =
    let conn = (get_header_entry_as cast (codes "connection") r []).1 in
    if is_empty conn then r else record r { close = not (strcasecmp_eq conn (codes "keep-alive")) }

unfoldable pub dump : HttpRequest → Bytes
dump r =
    http_method_to_string r.method
    ++ (codes " "
        ++ (r.url
            ++ (codes " "
                ++ (dump_version r.version
                    ++ (crlf
                        ++ (dump_headers r.headers
                            ++ (if is_empty r.body
                                then crlf
                                else codes "content-length: "
                                  ++ (decimal (length r.body) ++ (crlf ++ (crlf ++ r.body))))))))))

unfoldable pub to_string : HttpRequest → Bytes
unfolding dump
to_string r = dump r
