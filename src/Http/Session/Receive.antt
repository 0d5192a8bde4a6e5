-- ===== src/Http/Session/Receive.antt =====
-- `HttpSession::recvRequest` comes to an end on every finite input, and what it accepts is complete.
use qslary.Base.{
  ℕ, Bool, ◌<◌, ◌≡◌, refl, sym, ap, ◌∙◌, true, false, Option, some, [], ◌++◌, append_assoc,
  Bool-cases, ◌⊎◌, inl, inr, length, take, drop, take-append-drop, arith,
}
use qslary.Base.Text.{Bytes, codes}
use qslary.Stream.{Stream}
use qslary.Stream.FixSize.{Carries}
use qslary.Http.Request.{HttpRequest, get_header_entry_as, init}
use qslary.Http.Parser.{
  Machine, RequestEvent, RequestParser, create_request_parser, request_is_finished,
  request_content_length,
}
use qslary.Http.Session.{
  Head, broken, parsed, Received, refused, raised, accepted, has_body, BodyRead, cut, thrown, whole,
  with_body, recv_body, recv_request,
}
use qslary.Http.Session.Body.{IsBody, read_body-IsBody, read_body-none}
use qslary.Http.Session.Heads.{HeadRead, IsHead, recv_head-HeadEnds}

module _ {S M : Type 0} (v : Stream S) (resizes : ℕ → Bool) (c : Carries v)
    (p : Machine M RequestEvent) where
  module _ (to_text : Bytes → Option Bytes) (to_number : Bytes → Option ℕ) where
    -- The content length that a request announces.
    abbrev pub announced : HttpRequest → ℕ
    announced req = (get_header_entry_as to_number (codes "content-length") req 0).1

    -- A request that was accepted is complete: the input goes on, behind the bytes that the parser took
    -- of the last piece of the head, with as many bytes as the request announces, and these are its body.
    -- What was refused has closed the stream, and an exception comes from a length that a string cannot
    -- have.
    abbrev pub IsReceived : S → Received S → Type 0
    IsReceived s (refused s') = (s1 : S) × (s' ≡ v.close s1)
    IsReceived s (raised s') = (n : ℕ) × (has_body n ≡ true) × (resizes n ≡ false)
    IsReceived s (accepted req s') =
        (before last rest : Bytes) × (m : M) × (p.finish (p.execute last m).2 ≡ true)
        × (c.incoming s ≡ before ++ (take (p.execute last m).1 last ++ rest))
        × ((has_body (announced req) ≡ false)
            ⊎ (length req.body ≡ announced req) × (req.body ≡ take (announced req) rest))

    announced-init :
        (req : HttpRequest)
        → (announced (init to_text req) ≡ announced req) × ((init to_text req).body ≡ req.body)
    unfolding init get_header_entry_as
    announced-init req = ground arith

    -- The bytes behind the head.
    HeadRead-rest :
        (s : S) (r : RequestParser M) (rest : Bytes) (s' : S)
        (h : HeadRead v resizes c p [] s r rest s')
        → c.incoming s
          ≡ h.before ++ (take (p.execute h.last h.machine).1 h.last ++ (rest ++ c.incoming s'))
    HeadRead-rest s r rest s' h =
        let n = (p.execute h.last h.machine).1 in
        h.in_order
        ∙ ap (λ xs. h.before ++ xs)
            (ap (λ xs. xs ++ c.incoming s') (sym (take-append-drop n h.last))
              ∙ append_assoc (take n h.last) (drop n h.last) (c.incoming s')
              ∙ ap (λ xs. take n h.last ++ (xs ++ c.incoming s')) (sym h.behind))

    without_body :
        (s : S) (r : RequestParser M) (rest : Bytes) (s' : S)
        → has_body (request_content_length p to_number r) ≡ false
        → HeadRead v resizes c p [] s r rest s'
        → IsReceived s (with_body v resizes p to_text to_number r (whole [] s'))
    unfolding with_body request_content_length request_is_finished
    without_body s r rest s' no_body h = rw no_body (
      h.before,
      h.last,
      rest ++ c.incoming s',
      h.machine,
      ap (λ m. p.finish m) h.state ∙ h.done,
      HeadRead-rest s r rest s' h,
      inl (ap (λ n. has_body n) (announced-init r.request).0 ∙ no_body),
    )

    with_body-IsReceived :
        (s : S) (r : RequestParser M) (rest : Bytes) (s' : S) (b : BodyRead S)
        → has_body (request_content_length p to_number r) ≡ true
        → HeadRead v resizes c p [] s r rest s'
        → IsBody v resizes c (request_content_length p to_number r) rest s' b
        → IsReceived s (with_body v resizes p to_text to_number r b)
    unfolding with_body request_content_length get_header_entry_as request_is_finished
    with_body-IsReceived s r rest s' (cut s'') some_body h (few, (d, got, bad, closed)) =
        (d.stream, closed)
    with_body-IsReceived s r rest s' (thrown s'') some_body h (big, same) =
        (request_content_length p to_number r, some_body, big)
    with_body-IsReceived s r rest s' (whole body s'') some_body h (fits, size, text, later) =
        let same = announced-init (record r.request { body = body }) in
        rw some_body (
          h.before,
          h.last,
          rest ++ c.incoming s',
          h.machine,
          ap (λ m. p.finish m) h.state ∙ h.done,
          HeadRead-rest s r rest s' h,
          inr (
            ap length same.1 ∙ size ∙ sym same.0,
            same.1 ∙ text ∙ ap (λ n. take n (rest ++ c.incoming s')) (sym same.0),
          ),
        )

    recv_body-IsReceived :
        (s : S) (h : Head M S)
        → IsHead v resizes c p [] s h
        → (res : Received S) × (recv_body v resizes p to_text to_number h ≡ some res)
          × IsReceived s res
    unfolding recv_body
    recv_body-IsReceived s (broken s') ok = (refused s', refl, ok)
    recv_body-IsReceived s (parsed r rest s') ok =
        let n = request_content_length p to_number r in
        elim (Bool-cases (has_body n)) [
          | inl some_body ↦
              let (b, got, body) = read_body-IsBody v resizes c n rest s' some_body in
              (
                with_body v resizes p to_text to_number r b,
                rw got,
                with_body-IsReceived s r rest s' b some_body ok body,
              )
          | inr no_body ↦ (
            with_body v resizes p to_text to_number r (whole [] s'),
            rw (read_body-none v resizes n rest s' no_body),
            without_body s r rest s' no_body ok,
          )
        ]

    -- On a stream with finitely many bytes to come, `recvRequest` returns once it has more rounds
    -- than there are bytes. It gives a null pointer and a closed stream, ends with an exception for a
    -- length that a string cannot have, or gives a request: the input goes on, behind the bytes that the
    -- parser took of the last piece of the head, with the body, if one is announced, and it has the
    -- announced length.
    pub recv_request-IsReceived :
        (fuel : ℕ) (s : S)
        → length (c.incoming s) < fuel
        → (res : Received S) × (recv_request v resizes p to_text to_number fuel s ≡ some res)
          × IsReceived s res
    unfolding recv_request
    recv_request-IsReceived fuel s h =
        let (head, got, ok) =
          recv_head-HeadEnds v resizes c p fuel [] (create_request_parser p) s h in
        let (res, got', ok') = recv_body-IsReceived s head ok in (res, rw got got', ok')
