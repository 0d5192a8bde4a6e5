-- ===== src/Http/Request/Size.antt =====
-- A printed request is never empty.
use qslary.Base.{◌<◌, ◌++◌, length, length-append, arith}
use qslary.Base.Text.{Bytes, codes}
use qslary.Http.Method.{http_method_to_string}
use qslary.Http.Request.{HttpRequest, dump, to_string}

behind_blank : (xs ys : Bytes) → 0 < length (xs ++ (codes " " ++ ys))
behind_blank xs ys = omega (arith, length-append xs (codes " " ++ ys), length-append (codes " ") ys)

pub to_string-positive : (r : HttpRequest) → 0 < length (to_string r)
unfolding to_string dump
to_string-positive r = behind_blank (http_method_to_string r.method) _
