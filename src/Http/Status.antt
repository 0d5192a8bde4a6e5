-- ===== src/Http/Status.antt =====
-- `HttpStatus` of http/Http.h and its conversions in http/Http.cc. A status is its number, since the
-- parser casts any number to the type; the macro HTTP_STATUS_MAP lists the named ones.
use qslary.Base.{
  ℕ, ◌≡◌, refl, Bool, true, false, ◌&&◌, List, [], ◌∷◌, ◌==◌, ==_iff, Bool-cases, inl, inr,
  and_left, and_right, if◌then◌else◌, arith,
}
use qslary.Base.Text.{Bytes, codes, c_str, bytes_eq}

abbrev pub HttpStatus : Type 0
HttpStatus = ℕ

abbrev pub status_map : List (HttpStatus × Bytes)
status_map =
    (100, codes "CONTINUE")
    ∷ (101, codes "SWITCHING_PROTOCOLS")
    ∷ (102, codes "PROCESSING")
    ∷ (200, codes "OK")
    ∷ (201, codes "CREATED")
    ∷ (202, codes "ACCEPTED")
    ∷ (203, codes "NON_AUTHORITATIVE_INFORMATION")
    ∷ (204, codes "NO_CONTENT")
    ∷ (205, codes "RESET_CONTENT")
    ∷ (206, codes "PARTIAL_CONTENT")
    ∷ (207, codes "MULTI_STATUS")
    ∷ (208, codes "ALREADY_REPORTED")
    ∷ (226, codes "IM_USED")
    ∷ (300, codes "MULTIPLE_CHOICES")
    ∷ (301, codes "MOVED_PERMANENTLY")
    ∷ (302, codes "FOUND")
    ∷ (303, codes "SEE_OTHER")
    ∷ (304, codes "NOT_MODIFIED")
    ∷ (305, codes "USE_PROXY")
    ∷ (307, codes "TEMPORARY_REDIRECT")
    ∷ (308, codes "PERMANENT_REDIRECT")
    ∷ (400, codes "BAD_REQUEST")
    ∷ (401, codes "UNAUTHORIZED")
    ∷ (402, codes "PAYMENT_REQUIRED")
    ∷ (403, codes "FORBIDDEN")
    ∷ (404, codes "NOT_FOUND")
    ∷ (405, codes "METHOD_NOT_ALLOWED")
    ∷ (406, codes "NOT_ACCEPTABLE")
    ∷ (407, codes "PROXY_AUTHENTICATION_REQUIRED")
    ∷ (408, codes "REQUEST_TIMEOUT")
    ∷ (409, codes "CONFLICT")
    ∷ (410, codes "GONE")
    ∷ (411, codes "LENGTH_REQUIRED")
    ∷ (412, codes "PRECONDITION_FAILED")
    ∷ (413, codes "PAYLOAD_TOO_LARGE")
    ∷ (414, codes "URI_TOO_LONG")
    ∷ (415, codes "UNSUPPORTED_MEDIA_TYPE")
    ∷ (416, codes "RANGE_NOT_SATISFIABLE")
    ∷ (417, codes "EXPECTATION_FAILED")
    ∷ (421, codes "MISDIRECTED_REQUEST")
    ∷ (422, codes "UNPROCESSABLE_ENTITY")
    ∷ (423, codes "LOCKED")
    ∷ (424, codes "FAILED_DEPENDENCY")
    ∷ (426, codes "UPGRADE_REQUIRED")
    ∷ (428, codes "PRECONDITION_REQUIRED")
    ∷ (429, codes "TOO_MANY_REQUESTS")
    ∷ (431, codes "REQUEST_HEADER_FIELDS_TOO_LARGE")
    ∷ (451, codes "UNAVAILABLE_FOR_LEGAL_REASONS")
    ∷ (500, codes "INTERNAL_SERVER_ERROR")
    ∷ (501, codes "NOT_IMPLEMENTED")
    ∷ (502, codes "BAD_GATEWAY")
    ∷ (503, codes "SERVICE_UNAVAILABLE")
    ∷ (504, codes "GATEWAY_TIMEOUT")
    ∷ (505, codes "HTTP_VERSION_NOT_SUPPORTED")
    ∷ (506, codes "VARIANT_ALSO_NEGOTIATES")
    ∷ (507, codes "INSUFFICIENT_STORAGE")
    ∷ (508, codes "LOOP_DETECTED")
    ∷ (510, codes "NOT_EXTENDED")
    ∷ (511, codes "NETWORK_AUTHENTICATION_REQUIRED")
    ∷ []

abbrev pub status_ok : HttpStatus
status_ok = 200

abbrev pub status_not_found : HttpStatus
status_not_found = 404

-- The enumerator behind the last one.
abbrev pub status_unknow : HttpStatus
status_unknow = 512

name_of : HttpStatus → List (HttpStatus × Bytes) → Bytes
name_of s [] = codes "UNKNOW"
name_of s ((n, name) ∷ rest) = let later = name_of s rest in if s == n then name else later

code_of : Bytes → List (HttpStatus × Bytes) → HttpStatus
code_of text [] = status_unknow
code_of text ((n, name) ∷ rest) =
    let later = code_of text rest in if bytes_eq name (c_str text) then n else later

pub string_to_http_status : Bytes → HttpStatus
unfolding code_of
string_to_http_status status = code_of status status_map

unfoldable pub chars_to_http_status : Bytes → HttpStatus
unfolding code_of
chars_to_http_status status = code_of status status_map

unfoldable pub http_status_to_string : HttpStatus → Bytes
unfolding name_of
http_status_to_string status = name_of status status_map

-- The numbers in the map.
abbrev pub is_named : HttpStatus → List (HttpStatus × Bytes) → Bool
is_named s [] = false
is_named s ((n, name) ∷ rest) = if s == n then true else is_named s rest

-- Each name in the list leads back to its number in the table.
all_lead_back : List (HttpStatus × Bytes) → List (HttpStatus × Bytes) → Bool
unfolding code_of c_str bytes_eq
all_lead_back table [] = true
all_lead_back table ((n, name) ∷ rest) = (code_of name table == n) && all_lead_back table rest

code_of-name_of :
    (table : List (HttpStatus × Bytes)) (s : HttpStatus) (rest : List (HttpStatus × Bytes))
    → code_of (codes "UNKNOW") table ≡ status_unknow
    → all_lead_back table rest ≡ true
    → code_of (name_of s rest) table ≡ (if is_named s rest then s else status_unknow)
unfolding name_of all_lead_back
code_of-name_of table s [] u h = u
code_of-name_of table s ((n, name) ∷ rest) u h = elim (Bool-cases (s == n)) [
  | inl here ↦
      rw here (
        omega (arith, (==_iff s n).0 here, (==_iff _ n).0 (and_left (code_of name table == n) _ h)))
  | inr there ↦ rw there (code_of-name_of table s rest u (and_right (code_of name table == n) _ h))
]

-- Printing a status and reading the name back gives the status for each number of the map, and
-- `UNKNOW` for every other number.
pub string_to_http_status-http_status_to_string :
    (s : HttpStatus)
    → string_to_http_status (http_status_to_string s)
      ≡ (if is_named s status_map then s else status_unknow)
unfolding string_to_http_status http_status_to_string all_lead_back
string_to_http_status-http_status_to_string s = code_of-name_of status_map s status_map refl refl
