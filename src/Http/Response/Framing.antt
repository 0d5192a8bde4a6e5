-- ===== src/Http/Response/Framing.antt =====
-- How a response looks to a reader that looks for the empty line and then counts bytes.
use qslary.Base.{
  ◌≡◌, refl, Bool, true, false, [], ◌++◌, append_assoc, ◌∙◌, if◌then◌else◌, length, Bool-cases, inl,
  inr, arith,
}
use qslary.Base.Text.{Bytes, codes, is_empty, starts_with}
use qslary.Base.Decimal.{decimal}
use qslary.Http.Wire.{
  crlf, dump_headers, dump_version, no_cr, entries_no_cr, after_blank_line, no_cr-append,
  decimal-no_cr, after_blank_line-skip, after_blank_line-crlf, dump_version-no_cr,
  after_blank_line-headers, starts_headers,
}
use qslary.Http.Response.{HttpResponse, reason_text, dump_status_line, dump_body, dump}

-- No text of the head has a carriage return.
abbrev pub HeadIsClean : HttpResponse → Type 0
HeadIsClean r = (no_cr (reason_text r) ≡ true) × (entries_no_cr r.headers ≡ true)

after_body :
    (body : Bytes)
    → after_blank_line (crlf ++ dump_body body) ≡ (if is_empty body then [] else body ++ crlf)
unfolding dump_body after_blank_line starts_with
after_body body = elim (Bool-cases (is_empty body)) [
  | inl e ↦ rw e
  | inr e ↦
      rw (e, dump_body)
        (after_blank_line-skip (decimal (length body)) (crlf ++ (crlf ++ (body ++ crlf)))
          (decimal-no_cr (length body)))
]

-- The status line before its end.
abbrev status_text : HttpResponse → Bytes
status_text r =
    dump_version r.version ++ (codes " " ++ (decimal r.status ++ (codes " " ++ reason_text r)))

status_text-no_cr : (r : HttpResponse) → HeadIsClean r → no_cr (status_text r) ≡ true
status_text-no_cr r h =
    no_cr-append (dump_version r.version)
      (codes " " ++ (decimal r.status ++ (codes " " ++ reason_text r)))
      (dump_version-no_cr r.version)
      (no_cr-append (decimal r.status) (codes " " ++ reason_text r) (decimal-no_cr r.status) h.0)

dump_status_line_lem :
    (r : HttpResponse) (rest : Bytes) → dump_status_line r ++ rest ≡ status_text r ++ (crlf ++ rest)
unfolding dump_status_line
dump_status_line_lem r rest = simp append_assoc

after_connection :
    (close : Bool) (body : Bytes)
    → after_blank_line (
        codes "connection: "
        ++ ((if close then codes "close" else codes "keep-alive") ++ (crlf ++ dump_body body)))
      ≡ after_blank_line (crlf ++ dump_body body)
after_connection true body =
    after_blank_line-skip (codes "connection: close") (crlf ++ dump_body body) refl
after_connection false body =
    after_blank_line-skip (codes "connection: keep-alive") (crlf ++ dump_body body) refl

-- A response whose head has no stray carriage return has an empty line, behind which stand the body
-- and two more bytes that the announced content length does not count; without a body, nothing.
pub after_blank_line-dump :
    (r : HttpResponse)
    → HeadIsClean r
    → after_blank_line (dump r) ≡ (if is_empty r.body then [] else r.body ++ crlf)
unfolding dump
after_blank_line-dump r h =
    let lines = dump_headers r.headers ++ connection in
    rw
      (
        dump_status_line_lem r lines,
        after_blank_line-skip (status_text r) (crlf ++ lines) (status_text-no_cr r h),
        after_blank_line-crlf lines,
        starts_headers r.headers 99 _ h.1 (λ e. omega arith),
        after_blank_line-headers r.headers 99 _ h.1 (λ e. omega arith),
      )
      (after_connection r.close r.body ∙ after_body r.body)
  where
    connection : Bytes
    connection =
        codes "connection: "
        ++ ((if r.close then codes "close" else codes "keep-alive") ++ (crlf ++ dump_body r.body))
