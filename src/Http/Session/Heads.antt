-- ===== src/Http/Session/Heads.antt =====
-- The head of a request: the loop that feeds the parser comes to an end on every finite input.
use qslary.Base.{
  ℕ, zero, suc, ◌-◌, Bool, ◌<◌, ◌≡◌, refl, sym, ap, subst, ◌∙◌, true, false, Option, some, [], ◌∷◌,
  ◌++◌, append_assoc, ◌==◌, Bool-cases, inl, inr, length, take, drop, length-append,
  take-append-drop, arith,
}
use qslary.Base.Text.{Bytes}
use qslary.Stream.{Stream, Transfer, moved, failed, placed}
use qslary.Stream.FixSize.{Carries}
use qslary.Http.Parser.{
  Machine, RequestEvent, RequestParser, execute_request, request_is_finished, request_has_error,
}
use qslary.Http.Session.{buff_size, Head, broken, parsed, parse_round, read_round, recv_head}

module _ {S M : Type 0} (v : Stream S) (resizes : ℕ → Bool) (c : Carries v)
    (p : Machine M RequestEvent) where
  -- A head that was accepted: the parser is done without an error, after a last piece of the data
  -- that starts somewhere in it; behind the bytes taken of that piece follow those in the buffer, and
  -- behind these the ones still to come.
  pub record HeadRead (left : Bytes) (s : S) (r : RequestParser M) (rest : Bytes) (s' : S)
      : Type 0 where
    pub good : request_has_error p r ≡ false
    pub done : request_is_finished p r ≡ true
    pub before : Bytes
    pub last : Bytes
    pub machine : M
    pub in_order : left ++ c.incoming s ≡ before ++ (last ++ c.incoming s')
    pub state : (p.execute last machine).2 ≡ r.machine
    pub behind : rest ≡ drop (p.execute last machine).1 last

  -- A head that was refused has closed the stream.
  abbrev pub IsHead : Bytes → S → Head M S → Type 0
  IsHead left s (broken s') = (s1 : S) × (s' ≡ v.close s1)
  IsHead left s (parsed r rest s') = HeadRead left s r rest s'

  abbrev pub HeadEnds : Bytes → S → Option (Head M S) → Type 0
  HeadEnds left s o = (h : Head M S) × (o ≡ some h) × IsHead left s h

  -- A head after more input is a head of all of it.
  IsHead-behind :
      (used data' rest : Bytes) (s s1 : S) (h : Head M S)
      → data' ++ c.incoming s ≡ used ++ (rest ++ c.incoming s1)
      → IsHead rest s1 h
      → IsHead data' s h
  IsHead-behind used data' rest s s1 (broken s') e ok = ok
  IsHead-behind used data' rest s s1 (parsed r left s') e ok = record {
    good = ok.good;
    done = ok.done;
    before = used ++ ok.before;
    last = ok.last;
    machine = ok.machine;
    in_order =
        e
        ∙ ap (λ xs. used ++ xs) ok.in_order
        ∙ sym (append_assoc used ok.before (ok.last ++ c.incoming s'));
    state = ok.state;
    behind = ok.behind;
  }

  parse_round-HeadEnds :
      (next : Bytes → RequestParser M → S → Option (Head M S)) (data' : Bytes) (r : RequestParser M)
      (s : S)
      → ((left' : Bytes) (r' : RequestParser M) → HeadEnds left' s (next left' r' s))
      → HeadEnds data' s (parse_round v resizes p next data' r s)
  unfolding parse_round execute_request
  parse_round-HeadEnds next data' r s go =
      let n = (execute_request p data' r).0 in
      let r' : RequestParser M = (execute_request p data' r).2 in
      elim (Bool-cases (request_has_error p r')) [
        | inl bad ↦ (broken (v.close s), rw bad, (s, refl))
        | inr good ↦ elim (Bool-cases (length data' - n == buff_size)) [
          | inl full ↦ (broken (v.close s), rw (good, full), (s, refl))
          | inr room ↦ elim (Bool-cases (request_is_finished p r')) [
            | inl done ↦ (
              parsed r' (drop n data') s,
              rw (good, room, done),
              record {
                good = good;
                done = done;
                before = [];
                last = data';
                machine = r.machine;
                in_order = refl;
                state = refl;
                behind = refl;
              },
            )
            | inr more ↦
                let (h, e, ok) = go (drop n data') r' in
                let behind : data' ++ c.incoming s
                    ≡ take n data' ++ (drop n data' ++ c.incoming s) =
                  ap (λ xs. xs ++ c.incoming s) (sym (take-append-drop n data'))
                  ∙ append_assoc (take n data') (drop n data') (c.incoming s) in
                (
                  h,
                  rw (good, room, more) e,
                  IsHead-behind (take n data') data' (drop n data') s s h behind ok,
                )
          ]
        ]
      ]

  front :
      (n : ℕ) (s : S) (t : Transfer × S)
      → v.read n s ≡ t
      → c.incoming s ≡ placed t.0 ++ c.incoming t.1
  front n s t e = subst (λ t. c.incoming s ≡ placed t.0 ++ c.incoming t.1) e (c.read_front n s)

  read_round-HeadEnds :
      (next : Bytes → RequestParser M → S → Option (Head M S)) (left : Bytes) (r : RequestParser M)
      (s : S) (t : Transfer × S)
      → v.read (buff_size - length left) s ≡ t
      → ((left' : Bytes) (r' : RequestParser M) (s' : S)
          → length (c.incoming s') < length (c.incoming s)
          → HeadEnds left' s' (next left' r' s'))
      → HeadEnds left s (read_round v resizes p next left r t)
  unfolding read_round
  read_round-HeadEnds next left r s (moved [], s') e go = (broken (v.close s'), refl, (s', refl))
  read_round-HeadEnds next left r s (failed code, s') e go = (broken (v.close s'), refl, (s', refl))
  read_round-HeadEnds next left r s (moved (b ∷ bs), s') e go =
      let f = front (buff_size - length left) s (moved (b ∷ bs), s') e in
      let (h, got, ok) = parse_round-HeadEnds next (left ++ (b ∷ bs)) r s' (λ left' r'.
        go left' r' s' (omega (arith, ap length f, length-append (b ∷ bs) (c.incoming s')))) in
      (
        h,
        got,
        IsHead-behind [] left (left ++ (b ∷ bs)) s s' h
            (ap (λ xs. left ++ xs) f ∙ sym (append_assoc left (b ∷ bs) (c.incoming s'))) ok,
      )

  pub recv_head-HeadEnds :
      (fuel : ℕ) (left : Bytes) (r : RequestParser M) (s : S)
      → length (c.incoming s) < fuel
      → HeadEnds left s (recv_head v resizes p fuel left r s)
  unfolding recv_head
  recv_head-HeadEnds zero left r s h = absurd (omega arith)
  recv_head-HeadEnds (suc fuel) left r s h =
      read_round-HeadEnds _ left r s (v.read (buff_size - length left) s) refl
        λ left' r' s' less. recv_head-HeadEnds fuel left' r' s' (omega arith)
