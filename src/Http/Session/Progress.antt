-- ===== src/Http/Session/Progress.antt =====
-- Each request that is received takes some of what the peer has to send.
use qslary.Base.{
  ◌+◌, ◌≤◌, Option-cases, ℕ, zero, suc, ◌-◌, ◌<◌, ◌≡◌, refl, sym, ap, ◌∙◌, Bool, true, Option, some,
  none, [], ◌∷◌, ◌++◌, ◌==◌, ltb, Bool-cases, inl, inr, length, arith,
}
use qslary.Base.Text.{Bytes}
use qslary.Base.Fault.{◌>>=◌}
use qslary.Stream.{Stream, Transfer, read_fix_size, moved, failed, placed}
use qslary.Stream.FixSize.{Carries}
use qslary.Http.Request.{HttpRequest}
use qslary.Http.Parser.{
  Machine, RequestEvent, RequestParser, create_request_parser, execute_request, request_is_finished,
  request_has_error, request_content_length,
}
use qslary.Http.Session.{
  buff_size, Head, broken, parsed, Received, refused, raised, accepted, BodyRead, cut, thrown,
  whole, read_body, parse_round, read_round, recv_head, recv_body, recv_request, with_body,
}
use qslary.Stream.Limits.{IsLimited, read_fix_size-within}

module _ {S M : Type 0} (v : Stream S) (resizes : ℕ → Bool) (c : Carries v) (d : IsLimited v c)
    (p : Machine M RequestEvent) where
  -- Behind a head fewer bytes than `n` are still to come at most.
  abbrev head_less : ℕ → Option (Head M S) → Bool
  head_less n none = true
  head_less n (some (broken s)) = true
  head_less n (some (parsed r left s)) = ltb (d.limit s) n

  head_less_mono :
      (n k : ℕ) (o : Option (Head M S)) → n < k → head_less n o ≡ true → head_less k o ≡ true
  head_less_mono n k none l h = refl
  head_less_mono n k (some (broken s)) l h = refl
  head_less_mono n k (some (parsed r left s)) l h = ground arith

  parse_round-less :
      (next : Bytes → RequestParser M → S → Option (Head M S)) (data' : Bytes) (r : RequestParser M)
      (s : S) (n : ℕ)
      → d.limit s < n
      → ((left : Bytes) (r' : RequestParser M) → head_less (d.limit s) (next left r' s) ≡ true)
      → head_less n (parse_round v resizes p next data' r s) ≡ true
  unfolding parse_round
  parse_round-less next data' r s n l go =
      let r' : RequestParser M = (execute_request p data' r).2 in
      elim (Bool-cases (request_has_error p r')) [
        | inl bad ↦ rw bad refl
        | inr good ↦ elim (Bool-cases (length data' - (execute_request p data' r).0 == buff_size)) [
          | inl full ↦ rw (good, full) refl
          | inr room ↦ elim (Bool-cases (request_is_finished p r')) [
            | inl done ↦ rw (good, room, done) (ground arith)
            | inr more ↦ rw (good, room, more) (head_less_mono (d.limit s) n _ l (go _ r'))
          ]
        ]
      ]

  read_round-less :
      (next : Bytes → RequestParser M → S → Option (Head M S)) (left : Bytes) (r : RequestParser M)
      (n : ℕ) (t : Transfer × S)
      → length (placed t.0) + d.limit t.1 ≤ n
      → ((left' : Bytes) (r' : RequestParser M) (s' : S)
          → head_less (d.limit s') (next left' r' s') ≡ true)
      → head_less n (read_round v resizes p next left r t) ≡ true
  unfolding read_round
  read_round-less next left r n (moved [], s) e go = refl
  read_round-less next left r n (moved (b ∷ bs), s) e go =
      parse_round-less next (left ++ (b ∷ bs)) r s n (omega arith) (λ left' r'. go left' r' s)
  read_round-less next left r n (failed code, s) e go = refl

  recv_head-less :
      (fuel : ℕ) (left : Bytes) (r : RequestParser M) (s : S)
      → head_less (d.limit s) (recv_head v resizes p fuel left r s) ≡ true
  unfolding recv_head
  recv_head-less zero left r s = refl
  recv_head-less (suc fuel) left r s =
      read_round-less _ left r (d.limit s) (v.read (buff_size - length left) s)
        (d.read_le (buff_size - length left) s) (λ left' r' s'. recv_head-less fuel left' r' s')

  module _ (to_text : Bytes → Option Bytes) (to_number : Bytes → Option ℕ) where
    abbrev less : ℕ → Option (Received S) → Bool
    less n none = true
    less n (some (refused s)) = true
    less n (some (raised s)) = true
    less n (some (accepted req s)) = ltb (d.limit s) n

    body_less : ℕ → Option (BodyRead S) → Bool
    body_less n none = true
    body_less n (some (cut s)) = true
    body_less n (some (thrown s)) = true
    body_less n (some (whole body s)) = ltb (d.limit s) n

    read_body-less :
        (k n : ℕ) (left : Bytes) (s : S)
        → d.limit s < n
        → body_less n (read_body v resizes k left s) ≡ true
    unfolding read_body body_less
    read_body-less k n left s l = elim (Option-cases (read_fix_size v (k - length left) s)) [
      | inl gone ↦ ground arith
      | inr (done, got) ↦
          let small : d.limit done.stream < n =
            omega (arith, read_fix_size-within v c d (k - length left) s done got) in
          ground arith
    ]

    with_body-less :
        (n : ℕ) (r : RequestParser M) (o : Option (BodyRead S))
        → body_less n o ≡ true
        → less n (do b ← o; some (with_body v resizes p to_text to_number r b)) ≡ true
    unfolding with_body body_less
    with_body-less n r none l = refl
    with_body-less n r (some (cut s)) l = refl
    with_body-less n r (some (thrown s)) l = refl
    with_body-less n r (some (whole body s)) l = l

    recv_body-less :
        (n : ℕ) (h : Head M S)
        → head_less n (some h) ≡ true
        → less n (recv_body v resizes p to_text to_number h) ≡ true
    unfolding recv_body with_body
    recv_body-less n (broken s) l = refl
    recv_body-less n (parsed r left s) l =
        with_body-less n r (read_body v resizes (request_content_length p to_number r) left s)
          (read_body-less (request_content_length p to_number r) n left s (ground arith))

    recv_request_all :
        (fuel : ℕ) (s : S)
        → less (d.limit s) (recv_request v resizes p to_text to_number fuel s) ≡ true
    unfolding recv_request
    recv_request_all fuel s =
        go (recv_head v resizes p fuel [] (create_request_parser p) s)
          (recv_head-less fuel [] (create_request_parser p) s)
      where
        go :
            (o : Option (Head M S))
            → head_less (d.limit s) o ≡ true
            → less (d.limit s) (do h ← o; recv_body v resizes p to_text to_number h) ≡ true
        go none l = refl
        go (some h) l = recv_body-less (d.limit s) h l

    -- A request that is accepted leaves the peer less to send.
    pub recv_request-less :
        (fuel : ℕ) (s s' : S) (req : HttpRequest)
        → recv_request v resizes p to_text to_number fuel s ≡ some (accepted req s')
        → d.limit s' < d.limit s
    recv_request-less fuel s s' req ran =
        let l = sym (ap (λ o. less (d.limit s) o) ran) ∙ recv_request_all fuel s in ground arith
