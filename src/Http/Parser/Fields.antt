-- ===== src/Http/Parser/Fields.antt =====
-- What the callbacks make of the events of a request.
use qslary.Base.{ℕ, ◌≡◌, ◌≢◌, refl, sym, ap, ◌∙◌, List, [], ◌∷◌, if◌then◌else◌, arith}
use qslary.Base.Text.{Bytes, strcasecmp_eq}
use qslary.Http.Request.{get_header_entry}
use qslary.Http.Request.Laws.{IsWellFormed, updates-IsWellFormed, get_header_entry-set_header_entry}
use qslary.Http.Parser.{
  RequestEvent, request_method, request_version, http_field, RequestParser, on_request_event,
  on_request_events, on_request_method, on_request_version,
}

-- The value that a list of events gives a header: that of the last field of its name, in any case,
-- and `before` if there is none.
pub last_value : Bytes → Bytes → List RequestEvent → Bytes
last_value key before [] = before
last_value key before (http_field [] value ∷ es) = last_value key before es
last_value key before (http_field (c ∷ cs) value ∷ es) =
    last_value key (if strcasecmp_eq (c ∷ cs) key then value else before) es
last_value key before (_ ∷ es) = last_value key before es

module _ {M : Type 0} where
  -- The callbacks on the request line leave the headers alone.
  headers-on_request_method :
      (at : Bytes) (r : RequestParser M)
      → (on_request_method at r).request.headers ≡ r.request.headers
  unfolding on_request_method
  headers-on_request_method at r = ground arith

  headers-on_request_version :
      (at : Bytes) (n : ℕ) (r : RequestParser M)
      → (on_request_version at n r).request.headers ≡ r.request.headers
  unfolding on_request_version
  headers-on_request_version at n r = ground arith

  event_header :
      (key : Bytes) (e : RequestEvent) (es : List RequestEvent) (r : RequestParser M)
      → last_value key (get_header_entry key r.request) (e ∷ es)
        ≡ last_value key (get_header_entry key (on_request_event e r).request) es
  unfolding last_value on_request_event get_header_entry
  event_header key (http_field [] value) es r = refl
  event_header key (http_field (c ∷ cs) value) es r =
      ap (λ v. last_value key v es)
        (sym (get_header_entry-set_header_entry key (c ∷ cs) value r.request).0)
  event_header key (request_method at n) es r = rw (headers-on_request_method at r)
  event_header key (request_version at n) es r = rw (headers-on_request_version at n r)
  event_header key _ es r = refl

  -- Whatever a request's events are, a header has afterwards the value of the last field of its name
  -- in any case, fields with an empty name not counted, and its former value if there was none.
  pub get_header_entry-on_request_events :
      (key : Bytes) (es : List RequestEvent) (r : RequestParser M)
      → get_header_entry key (on_request_events es r).request
        ≡ last_value key (get_header_entry key r.request) es
  unfolding on_request_events last_value
  get_header_entry-on_request_events key [] r = refl
  get_header_entry-on_request_events key (e ∷ es) r =
      get_header_entry-on_request_events key es (on_request_event e r)
      ∙ sym (event_header key e es r)

  event-IsWellFormed :
      (e : RequestEvent) (r : RequestParser M)
      → IsWellFormed r.request
      → IsWellFormed (on_request_event e r).request
  unfolding on_request_event on_request_method on_request_version
  event-IsWellFormed (http_field [] value) r w = w
  event-IsWellFormed (http_field (c ∷ cs) value) r w =
      (updates-IsWellFormed (c ∷ cs) value r.request w).0
  event-IsWellFormed _ r w = ground arith

  event_error :
      (e : RequestEvent) (r : RequestParser M) → r.error ≢ 0 → (on_request_event e r).error ≢ 0
  unfolding on_request_event on_request_method on_request_version
  event_error (http_field [] value) r h = h
  event_error (http_field (c ∷ cs) value) r h = h
  event_error _ r h = ground arith

  -- The callbacks keep a request well-formed.
  pub on_request_events-IsWellFormed :
      (es : List RequestEvent) (r : RequestParser M)
      → IsWellFormed r.request
      → IsWellFormed (on_request_events es r).request
  unfolding on_request_events
  on_request_events-IsWellFormed [] r w = w
  on_request_events-IsWellFormed (e ∷ es) r w =
      on_request_events-IsWellFormed es (on_request_event e r) (event-IsWellFormed e r w)

  -- An error that a callback has set stays set, whatever the later callbacks of the call are.
  pub on_request_events_error :
      (es : List RequestEvent) (r : RequestParser M)
      → r.error ≢ 0
      → (on_request_events es r).error ≢ 0
  unfolding on_request_events
  on_request_events_error [] r h = h
  on_request_events_error (e ∷ es) r h =
      on_request_events_error es (on_request_event e r) (event_error e r h)
