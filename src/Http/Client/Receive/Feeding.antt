-- ===== src/Http/Client/Receive/Feeding.antt =====
-- Feeding the response parser, the head of a response or of a chunk.
use qslary.Base.{
  ℕ, zero, suc, ◌+◌, ◌-◌, ◌<◌, ◌≡◌, refl, sym, ap, subst, ◌∙◌, Bool, true, false, Option, some, [],
  ◌∷◌, ◌++◌, append_assoc, ◌==◌, Bool-cases, inl, inr, length, take, drop, length-append,
  if◌then◌else◌, take-append-drop, arith,
}
use qslary.Base.Text.{Bytes}
use qslary.Stream.{Stream, Transfer, moved, failed, placed}
use qslary.Stream.FixSize.{Carries}
use qslary.Http.Status.{HttpStatus}
use qslary.Http.Parser.{Machine}
use qslary.Http.Parser.Reply.{
  ResponseEvent, ResponseParser, ChunkMachine, execute_response, response_is_finished,
  response_has_error,
}
use qslary.Http.Session.{buff_size}
use qslary.Http.Client.Receive.{Head, broken, parsed, parse_round, read_round, feed}

module _ {S M : Type 0} (v : Stream S) (c : Carries v) (p : Machine M ResponseEvent)
    (q : ChunkMachine M) (atoi : Bytes → HttpStatus) where
  -- The state that the machine has after a piece of input, and how many bytes it took of it.
  abbrev pub run : Bool → Bytes → M → ℕ × M
  run chunck piece m = let did = p.execute piece (if chunck then q.init m else m) in (did.1, did.2)

  -- A head that was accepted: the parser is done without an error, after a last piece of the data
  -- that starts somewhere in it; behind the bytes taken of that piece follow those in the buffer, and
  -- behind these the ones still to come.
  pub record HeadRead (chunck : Bool) (left : Bytes) (s : S) (r : ResponseParser M) (rest : Bytes)
      (s' : S) : Type 0 where
    pub good : response_has_error p r ≡ false
    pub done : response_is_finished p r ≡ true
    pub before : Bytes
    pub last : Bytes
    pub machine : M
    pub in_order : left ++ c.incoming s ≡ before ++ (last ++ c.incoming s')
    pub state : (run chunck last machine).1 ≡ r.machine
    pub behind : rest ≡ drop (run chunck last machine).0 last

  abbrev pub IsHead : Bool → Bytes → S → Head M S → Type 0
  IsHead chunck left s (broken s') = (s1 : S) × (s' ≡ v.close s1)
  IsHead chunck left s (parsed r rest s') = HeadRead chunck left s r rest s'

  abbrev pub HeadEnds : Bool → Bytes → S → Option (Head M S) → Type 0
  HeadEnds chunck left s o = (h : Head M S) × (o ≡ some h) × IsHead chunck left s h

  -- The bytes that were taken for the head.
  abbrev pub taken :
      {chunck : Bool} {left : Bytes} {s : S} {r : ResponseParser M} {rest : Bytes} {s' : S}
      → HeadRead chunck left s r rest s'
      → Bytes
  taken {chunck = chunck} h = h.before ++ take (run chunck h.last h.machine).0 h.last

  pub taken-rest :
      {chunck : Bool} {left : Bytes} {s : S} {r : ResponseParser M} {rest : Bytes} {s' : S}
      (h : HeadRead chunck left s r rest s')
      → left ++ c.incoming s ≡ taken h ++ (rest ++ c.incoming s')
  taken-rest {chunck = chunck} {s' = s'} h =
      let n = (run chunck h.last h.machine).0 in
      h.in_order
      ∙ ap (λ xs. h.before ++ xs)
          (ap (λ xs. xs ++ c.incoming s') (sym (take-append-drop n h.last))
            ∙ append_assoc (take n h.last) (drop n h.last) (c.incoming s')
            ∙ ap (λ xs. take n h.last ++ (xs ++ c.incoming s')) (sym h.behind))
      ∙ sym (append_assoc h.before (take n h.last) _)

  -- A head after more input is a head of all of it.
  IsHead-behind :
      (chunck : Bool) (used data' rest : Bytes) (s s1 : S) (h : Head M S)
      → data' ++ c.incoming s ≡ used ++ (rest ++ c.incoming s1)
      → IsHead chunck rest s1 h
      → IsHead chunck data' s h
  IsHead-behind chunck used data' rest s s1 (broken s') e ok = ok
  IsHead-behind chunck used data' rest s s1 (parsed r left s') e ok = record {
    good = ok.good;
    done = ok.done;
    before = used ++ ok.before;
    last = ok.last;
    machine = ok.machine;
    in_order =
        e
        ∙ ap (λ xs. used ++ xs) ok.in_order
        ∙ sym (append_assoc used ok.before (ok.last ++ c.incoming s'));
    state = ok.state;
    behind = ok.behind;
  }

  parse_round-HeadEnds :
      (next : Bytes → ResponseParser M → S → Option (Head M S)) (chunck : Bool) (data' : Bytes)
      (r : ResponseParser M) (s : S)
      → ((left' : Bytes) (r' : ResponseParser M) → HeadEnds chunck left' s (next left' r' s))
      → HeadEnds chunck data' s (parse_round v p q atoi next chunck data' r s)
  unfolding parse_round execute_response
  parse_round-HeadEnds next chunck data' r s go =
      let n = (execute_response atoi p q chunck data' r).0 in
      let r' : ResponseParser M = (execute_response atoi p q chunck data' r).2 in
      elim (Bool-cases (response_has_error p r')) [
        | inl bad ↦ (broken (v.close s), rw bad, (s, refl))
        | inr good ↦ elim (Bool-cases (length data' - n == buff_size)) [
          | inl full ↦ (broken (v.close s), rw (good, full), (s, refl))
          | inr room ↦ elim (Bool-cases (response_is_finished p r')) [
            | inl done ↦ (
              parsed r' (drop n data') s,
              rw (good, room, done),
              record {
                good = good;
                done = done;
                before = [];
                last = data';
                machine = r.machine;
                in_order = refl;
                state = refl;
                behind = refl;
              },
            )
            | inr more ↦
                let (h, e, ok) = go (drop n data') r' in
                let behind : data' ++ c.incoming s
                    ≡ take n data' ++ (drop n data' ++ c.incoming s) =
                  ap (λ xs. xs ++ c.incoming s) (sym (take-append-drop n data'))
                  ∙ append_assoc (take n data') (drop n data') (c.incoming s) in
                (
                  h,
                  rw (good, room, more) e,
                  IsHead-behind chunck (take n data') data' (drop n data') s s h behind ok,
                )
          ]
        ]
      ]

  front :
      (n : ℕ) (s : S) (t : Transfer × S)
      → v.read n s ≡ t
      → c.incoming s ≡ placed t.0 ++ c.incoming t.1
  front n s t e = subst (λ t. c.incoming s ≡ placed t.0 ++ c.incoming t.1) e (c.read_front n s)

  read_round-HeadEnds :
      (next : Bytes → ResponseParser M → S → Option (Head M S)) (chunck : Bool) (left : Bytes)
      (r : ResponseParser M) (s : S) (t : Transfer × S)
      → v.read (buff_size - length left) s ≡ t
      → ((left' : Bytes) (r' : ResponseParser M) (s' : S)
          → length (c.incoming s') < length (c.incoming s)
          → HeadEnds chunck left' s' (next left' r' s'))
      → HeadEnds chunck left s (read_round v p q atoi next chunck left r t)
  unfolding read_round
  read_round-HeadEnds next chunck left r s (moved [], s') e go =
      (broken (v.close s'), refl, (s', refl))
  read_round-HeadEnds next chunck left r s (failed code, s') e go =
      (broken (v.close s'), refl, (s', refl))
  read_round-HeadEnds next chunck left r s (moved (b ∷ bs), s') e go =
      let f = front (buff_size - length left) s (moved (b ∷ bs), s') e in
      let (h, got, ok) = parse_round-HeadEnds next chunck (left ++ (b ∷ bs)) r s' (λ left' r'.
        go left' r' s' (omega (arith, ap length f, length-append (b ∷ bs) (c.incoming s')))) in
      (
        h,
        got,
        IsHead-behind chunck [] left (left ++ (b ∷ bs)) s s' h
            (ap (λ xs. left ++ xs) f ∙ sym (append_assoc left (b ∷ bs) (c.incoming s'))) ok,
      )

  feed_again-HeadEnds :
      (chunck : Bool) (fuel : ℕ) (left : Bytes) (r : ResponseParser M) (s : S)
      → length (c.incoming s) < fuel
      → HeadEnds chunck left s (feed v p q atoi chunck fuel false left r s)
  unfolding feed
  feed_again-HeadEnds chunck zero left r s h = absurd (omega arith)
  feed_again-HeadEnds chunck (suc fuel) left r s h =
      read_round-HeadEnds _ chunck left r s (v.read (buff_size - length left) s) refl
        λ left' r' s' less. feed_again-HeadEnds chunck fuel left' r' s' (omega arith)

  -- Feeding the parser ends, with a head of the input or a closed stream.
  pub feed-HeadEnds :
      (chunck : Bool) (fuel : ℕ) (left : Bytes) (r : ResponseParser M) (s : S)
      → length (c.incoming s) + 1 < fuel
      → HeadEnds chunck left s (feed v p q atoi chunck fuel true left r s)
  unfolding feed
  feed-HeadEnds chunck zero left r s h = absurd (omega arith)
  feed-HeadEnds chunck (suc fuel) [] r s h =
      read_round-HeadEnds _ chunck [] r s (v.read (buff_size - 0) s) refl
        λ left' r' s' less. feed_again-HeadEnds chunck fuel left' r' s' (omega arith)
  feed-HeadEnds chunck (suc fuel) (b ∷ bs) r s h =
      let some_data : (suc (length bs) == 0) ≡ false = ground arith in
      rw some_data (
        parse_round-HeadEnds (λ left' r' s'. feed v p q atoi chunck fuel false left' r' s') chunck
          (b ∷ bs) r s λ left' r'. feed_again-HeadEnds chunck fuel left' r' s (omega arith))
