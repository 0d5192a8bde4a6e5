-- ===== src/Examples/Messages.antt =====
-- Headers, methods, statuses and messages at work.
use qslary.Base.{ℕ, ◌≡◌, refl, true, false, List, [], ◌∷◌, ◌++◌}
use qslary.Base.Text.{codes, is_empty, strcasecmp_eq, bytes_eq, fold_case}
use qslary.Base.Decimal.{decimal}
use qslary.Http.Method.{
  string_to_http_method, http_method_to_string, string_to_http_method-http_method_to_string,
}
use qslary.Http.Method
use qslary.Http.Wire.{crlf, after_blank_line}
use qslary.Http.Request.{
  HttpRequest, empty_request, get_header_entry, has_header_entry, get_parma_entry, get_cookis_entry,
  set_header_entry,
}
use qslary.Http.Request.Laws.{IsWellFormed, get_header_entry-set_header_entry}
use qslary.Http.Response.{HttpResponse, dump, reason_text}
use qslary.Http.Response.Framing.{after_blank_line-dump}
use qslary.Http.Parser.{RequestEvent, RequestParser, on_request_events}
use qslary.Http.Parser.Fields.{last_value, get_header_entry-on_request_events}

decimal_1203 : decimal 1203 ≡ codes "1203"
unfolding decimal
decimal_1203 = refl

string_to_http_method-http_method_to_string_example :
    string_to_http_method (http_method_to_string Method.post ++ codes " /index HTTP/1.1")
    ≡ Method.post
string_to_http_method-http_method_to_string_example =
    string_to_http_method-http_method_to_string Method.post (codes " /index HTTP/1.1")

abbrev hosted : HttpRequest
hosted = record empty_request { headers = (codes "Host", codes "a.b") ∷ [] }

hosted-IsWellFormed : IsWellFormed hosted
hosted-IsWellFormed = record {
  headers_ordered = (tt, tt);
  parmas_ordered = tt;
  cookies_ordered = tt;
}

get_header_entry-set_header_entry_example :
    let r' = set_header_entry (codes "HOST") (codes "c.d") hosted in
    (get_header_entry (codes "host") r' ≡ codes "c.d")
    × (has_header_entry (codes "host") r' ≡ true)
    × (get_parma_entry (codes "host") r' ≡ get_parma_entry (codes "host") hosted)
    × (get_cookis_entry (codes "host") r' ≡ get_cookis_entry (codes "host") hosted)
    × (record r' { headers = hosted.headers } ≡ hosted)
unfolding strcasecmp_eq bytes_eq fold_case
get_header_entry-set_header_entry_example =
    get_header_entry-set_header_entry (codes "host") (codes "HOST") (codes "c.d") hosted

abbrev page : HttpResponse
page = record {
  status = 200;
  status_code = [];
  status_desc = [];
  version = 17;
  close = false;
  body = codes "hi";
  reason = codes "OK";
  headers = (codes "Server", codes "q") ∷ [];
}

after_blank_line-dump_example : after_blank_line (dump page) ≡ codes "hi" ++ crlf
unfolding reason_text is_empty
after_blank_line-dump_example = after_blank_line-dump page (refl, refl)

abbrev events : List RequestEvent
events =
    RequestEvent.http_field (codes "Host") (codes "x")
    ∷ RequestEvent.http_field (codes "HOST") (codes "y")
    ∷ []

abbrev hosted_parser : RequestParser ℕ
hosted_parser = record { machine = 0; request = hosted; error = 1000 }

get_header_entry-on_request_events_example :
    get_header_entry (codes "host") (on_request_events events hosted_parser).request
    ≡ last_value (codes "host") (get_header_entry (codes "host") hosted) events
get_header_entry-on_request_events_example =
    get_header_entry-on_request_events (codes "host") events hosted_parser
