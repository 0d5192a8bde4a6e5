-- ===== src/Http/Response.antt =====
-- `HttpResponse` of http/Http.h and http/Http.cc.
pub mod Framing
use qslary.Base.{ℕ, Bool, true, false, Option, [], ◌∷◌, ◌++◌, if◌then◌else◌, length}
use qslary.Base.Text.{Bytes, codes, is_empty}
use qslary.Base.Decimal.{decimal}
use qslary.Http.Headers.{HttpMap, get_entry, has_entry, set_entry, del_entry, get_as}
use qslary.Http.Wire.{crlf, dump_headers, dump_version}
use qslary.Http.Status.{HttpStatus, status_ok, http_status_to_string}

pub record HttpResponse : Type 0 where
  pub status : HttpStatus
  pub status_code : Bytes
  pub status_desc : Bytes
  pub version : ℕ
  pub close : Bool
  pub body : Bytes
  pub reason : Bytes
  pub headers : HttpMap

unfoldable pub create : HttpStatus → ℕ → Bool → HttpResponse
create status version close = record {
  status = status;
  status_code = [];
  status_desc = [];
  version = version;
  close = close;
  body = [];
  reason = [];
  headers = [];
}

-- The default constructor.
pub empty_response : HttpResponse
unfolding create
empty_response = create status_ok 0 true

pub get_header_entry : Bytes → HttpResponse → Bytes
get_header_entry key r = get_entry key r.headers

pub has_header_entry : Bytes → HttpResponse → Bool
has_header_entry key r = has_entry key r.headers

unfoldable pub set_header_entry : Bytes → Bytes → HttpResponse → HttpResponse
set_header_entry key value r = record r { headers = set_entry key value r.headers }

pub del_header_entry : Bytes → HttpResponse → HttpResponse
del_header_entry key r = record r { headers = del_entry key r.headers }

unfoldable pub get_header_entry_as {ℓ} :
    {A : Type ℓ} → (Bytes → Option A) → Bytes → HttpResponse → A → Bool × A
get_header_entry_as cast key r value = get_as cast key r.headers value

-- The reason, or the name of the status where there is none.
unfoldable pub reason_text : HttpResponse → Bytes
reason_text r = if is_empty r.reason then http_status_to_string r.status else r.reason

dump_status_line : HttpResponse → Bytes
unfolding reason_text
dump_status_line r =
    dump_version r.version
    ++ (codes " " ++ (decimal r.status ++ (codes " " ++ (reason_text r ++ crlf))))

dump_body : Bytes → Bytes
dump_body body =
    if is_empty body
    then crlf
    else codes "content-length: " ++ (decimal (length body) ++ (crlf ++ (crlf ++ (body ++ crlf))))

unfoldable pub dump : HttpResponse → Bytes
unfolding dump_status_line dump_body
dump r =
    dump_status_line r
    ++ (dump_headers r.headers
        ++ (codes "connection: "
            ++ ((if r.close then codes "close" else codes "keep-alive")
                ++ (crlf ++ dump_body r.body))))

pub to_string : HttpResponse → Bytes
unfolding dump
to_string r = dump r
