-- ===== src/Http/Request/Laws.antt =====
-- The laws of a request's headers, parameters and cookies, and of `init`.
use qslary.Base.{
  ◌≡◌, refl, true, false, not, Option, some, [], if◌then◌else◌, Bool-cases, inl, inr, arith,
}
use qslary.Base.Text.{Bytes, codes, strcasecmp_eq, is_empty}
use qslary.Http.Headers.{
  IsOrdered, get_entry-set_entry, has_entry-set_entry, get_entry-del_entry, has_entry-del_entry,
  set_entry-IsOrdered, del_entry-IsOrdered, get_as-set_entry,
}
use qslary.Http.Request.{
  HttpRequest, get_header_entry, get_parma_entry, get_cookis_entry, has_header_entry,
  set_header_entry, set_parma_entry, set_cookies_entry, del_header_entry, del_parma_entry,
  del_cookies_entry, init,
}

-- The three maps are in the order of their keys, no key twice.
pub record IsWellFormed (r : HttpRequest) : Type 0 where
  pub headers_ordered : IsOrdered r.headers
  pub parmas_ordered : IsOrdered r.parmas
  pub cookies_ordered : IsOrdered r.cookies

-- Every write and deletion keeps a request well-formed.
pub updates-IsWellFormed :
    (k v : Bytes) (r : HttpRequest)
    → IsWellFormed r
    → IsWellFormed (set_header_entry k v r)
      × IsWellFormed (set_parma_entry k v r)
      × IsWellFormed (set_cookies_entry k v r)
      × IsWellFormed (del_header_entry k r)
      × IsWellFormed (del_parma_entry k r)
      × IsWellFormed (del_cookies_entry k r)
unfolding set_header_entry set_parma_entry set_cookies_entry del_header_entry del_parma_entry
    del_cookies_entry
updates-IsWellFormed k v r w = ground (
  arith,
  set_entry-IsOrdered k v r.headers,
  set_entry-IsOrdered k v r.parmas,
  set_entry-IsOrdered k v r.cookies,
  del_entry-IsOrdered k r.headers,
  del_entry-IsOrdered k r.parmas,
  del_entry-IsOrdered k r.cookies,
)

-- A header that was set is found under its key in any case, with its value; every other header is as
-- before, and so is all of the request but its headers.
pub get_header_entry-set_header_entry :
    (j k v : Bytes) (r : HttpRequest)
    → let r' = set_header_entry k v r in
      (get_header_entry j r' ≡ (if strcasecmp_eq k j then v else get_header_entry j r))
      × (has_header_entry j r' ≡ (if strcasecmp_eq k j then true else has_header_entry j r))
      × (get_parma_entry j r' ≡ get_parma_entry j r)
      × (get_cookis_entry j r' ≡ get_cookis_entry j r)
      × (record r' { headers = r.headers } ≡ r)
unfolding set_header_entry get_header_entry has_header_entry get_parma_entry get_cookis_entry
get_header_entry-set_header_entry j k v r =
    (get_entry-set_entry j k v r.headers, has_entry-set_entry j k v r.headers, refl, refl, refl)

-- A header that was deleted from a well-formed request is gone under its key in any case; every
-- other header is as before.
pub get_header_entry-del_header_entry :
    (j k : Bytes) (r : HttpRequest)
    → IsWellFormed r
    → let r' = del_header_entry k r in
      (get_header_entry j r' ≡ (if strcasecmp_eq k j then [] else get_header_entry j r))
      × (has_header_entry j r' ≡ (if strcasecmp_eq k j then false else has_header_entry j r))
unfolding del_header_entry get_header_entry has_header_entry
get_header_entry-del_header_entry j k r w = (
  get_entry-del_entry j k r.headers w.headers_ordered,
  has_entry-del_entry j k r.headers w.headers_ordered,
)

-- After a connection header under any case of its name, `init` closes exactly if the value is not
-- keep-alive, in any case; an empty value leaves `close` as it was. The conversion to a text copies.
pub init-set_header_entry :
    (cast : Bytes → Option Bytes) (k v : Bytes) (r : HttpRequest)
    → ((s : Bytes) → cast s ≡ some s)
    → strcasecmp_eq k (codes "connection") ≡ true
    → (init cast (set_header_entry k v r)).close
      ≡ (if is_empty v then r.close else not (strcasecmp_eq v (codes "keep-alive")))
unfolding init set_header_entry
init-set_header_entry cast k v r copies same =
    rw (get_as-set_entry cast (codes "connection") k v r.headers [] v (copies v) same)
      (elim (Bool-cases (is_empty v)) [ inl e ↦ rw e | inr e ↦ rw e ])
