-- ===== src/Http/Session/Ended.antt =====
-- A request from a stream that has nothing more to give.
use qslary.Base.{
  Bool, ℕ, suc, ◌-◌, ◌≡◌, refl, sym, ap, ◌∙◌, Option, some, [], ◌∷◌, ◌++◌, length, length-append,
  arith,
}
use qslary.Base.Text.{Bytes}
use qslary.Stream.{Stream, Transfer, moved, failed, placed}
use qslary.Stream.FixSize.{Carries}
use qslary.Http.Parser.{Machine, RequestEvent, RequestParser, create_request_parser}
use qslary.Http.Session.{
  buff_size, Head, broken, refused, read_round, recv_head, recv_body, recv_request,
}

module _ {S M : Type 0} (v : Stream S) (resizes : ℕ → Bool) (c : Carries v)
    (p : Machine M RequestEvent) where
  read_round-at_end :
      (next : Bytes → RequestParser M → S → Option (Head M S)) (left : Bytes) (r : RequestParser M)
      (t : Transfer × S)
      → [] ≡ placed t.0 ++ c.incoming t.1
      → (s' : S) × (read_round v resizes p next left r t ≡ some (broken s'))
  unfolding read_round
  read_round-at_end next left r (moved [], s) e = (v.close s, refl)
  read_round-at_end next left r (moved (b ∷ bs), s) e =
      absurd (omega (arith, ap length e, length-append (b ∷ bs) (c.incoming s)))
  read_round-at_end next left r (failed code, s) e = (v.close s, refl)

  -- On a stream that has ended the request is a null pointer.
  pub recv_request-at_end :
      (to_text : Bytes → Option Bytes) (to_number : Bytes → Option ℕ) (fuel : ℕ) (s : S)
      → c.incoming s ≡ []
      → (s' : S) × (recv_request v resizes p to_text to_number (suc fuel) s ≡ some (refused s'))
  unfolding recv_request recv_head recv_body
  recv_request-at_end to_text to_number fuel s e =
      let (s', got) =
        read_round-at_end (λ left r s'. recv_head v resizes p fuel left r s') []
          (create_request_parser p) (v.read (buff_size - 0) s)
          (sym e ∙ c.read_front (buff_size - 0) s) in
      (s', rw got refl)
