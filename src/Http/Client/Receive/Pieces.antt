-- ===== src/Http/Client/Receive/Pieces.antt =====
-- The data of a chunk.
use qslary.Base.{
  false, take-append_left, ltb→ge, ◌⊎◌, ℕ, zero, suc, ◌+◌, ◌-◌, ◌^◌, ◌<◌, ◌≤◌, ◌≡◌, refl, sym, ap,
  subst, ◌∙◌, Option, some, [], ◌∷◌, ◌++◌, append_assoc, append-nil, ◌==◌, ltb, leb, Bool-cases,
  inl, inr, length, take, drop, length-append, length-take, length-drop, if◌then◌else◌,
  take-append-drop, take-append_right, drop-drop, arith,
}
use qslary.Base.Int.{ℤ, pos, negsuc}
use qslary.Base.Text.{Bytes}
use qslary.Stream.{Stream, Transfer, moved, failed, placed}
use qslary.Stream.FixSize.{Carries}
use qslary.Http.Session.{buff_size}
use qslary.Http.Client.Receive.{
  Piece, piece_cut, piece_overrun, piece, tail_round, read_tail, read_piece,
}

-- The data has the length of the chunk and stands behind the body; two bytes are skipped. The length
-- -1 is taken for no data and a line end of one byte.
abbrev pub IsSized : ℤ → Bytes → Bytes → Type 0
IsSized z data_ line_end =
    ((z ≡ pos (length data_)) × (length line_end ≡ 2))
    ⊎ (z ≡ negsuc 0) × (data_ ≡ []) × (length line_end ≡ 1)

-- What the data of a chunk makes of the body: it is put behind it, but with a line end of one byte the
-- body loses its last byte.
abbrev pub joined : Bytes → Bytes → Bytes → Bytes
joined body data_ line_end =
    if length line_end == 1 then take (length body - 1) body else body ++ data_

module _ {S : Type 0} (v : Stream S) (c : Carries v) where
  -- The bytes that were missing came, in order, behind the body.
  abbrev IsTail : ℕ → Bytes → S → Piece S → Type 0
  IsTail left body s (piece_cut s') = (s1 : S) × (s' ≡ v.close s1)
  IsTail left body s (piece_overrun s') = Unit {0}
  IsTail left body s (piece body' rest s') =
      (rest ≡ [])
      × ((got : Bytes) × (length got ≡ left)
          × (c.incoming s ≡ got ++ c.incoming s')
          × (2 ≤ length (body ++ got))
          × (body' ≡ take (length (body ++ got) - 2) (body ++ got)))

  IsTail-behind :
      (left : ℕ) (body got : Bytes) (s s1 : S) (b : Piece S)
      → c.incoming s ≡ got ++ c.incoming s1
      → length got ≤ left
      → IsTail (left - length got) (body ++ got) s1 b
      → IsTail left body s b
  IsTail-behind left body got s s1 (piece_cut s') e h ok = ok
  IsTail-behind left body got s s1 (piece_overrun s') e h ok = tt
  IsTail-behind left body got s s1 (piece body' rest s') e h
        (none_left, (more, size, later, two, text)) =
      (
        none_left,
        (
          got ++ more,
          omega (arith, length-append got more),
          e ∙ ap (λ xs. got ++ xs) later ∙ sym (append_assoc got more (c.incoming s')),
          subst (λ xs. 2 ≤ length xs) (append_assoc body got more) two,
          subst (λ xs. body' ≡ take (length xs - 2) xs) (append_assoc body got more) text,
        ),
      )

  abbrev TailEnds : ℕ → Bytes → S → Option (Piece S) → Type 0
  TailEnds left body s o = (b : Piece S) × (o ≡ some b) × IsTail left body s b

  tail_round-TailEnds :
      (next : ℕ → Bytes → S → Option (Piece S)) (n left : ℕ) (body : Bytes) (s : S)
      (t : Transfer × S)
      → n ≤ left
      → length (placed t.0) ≤ n
      → c.incoming s ≡ placed t.0 ++ c.incoming t.1
      → ((left' : ℕ) (body' : Bytes) (s' : S)
          → length (c.incoming s') < length (c.incoming s)
          → TailEnds left' body' s' (next left' body' s'))
      → 0 < left
      → TailEnds left body s (tail_round v next left body t)
  unfolding tail_round
  tail_round-TailEnds next n left body s (moved [], s') l h e go some_left =
      (piece_cut (v.close s'), refl, (s', refl))
  tail_round-TailEnds next n left body s (failed code, s') l h e go some_left =
      (piece_cut (v.close s'), refl, (s', refl))
  tail_round-TailEnds next n left body s (moved (b ∷ bs), s') l h e go some_left =
      let (r, got, ok) =
        go (left - length (b ∷ bs)) (body ++ (b ∷ bs)) s'
          (omega (arith, ap length e, length-append (b ∷ bs) (c.incoming s'))) in
      (r, got, IsTail-behind left body (b ∷ bs) s s' r e (omega arith) ok)

  read_tail-TailEnds :
      (fuel left : ℕ) (body : Bytes) (s : S)
      → length (c.incoming s) < fuel
      → TailEnds left body s (read_tail v fuel left body s)
  unfolding read_tail
  read_tail-TailEnds zero left body s h = absurd (omega arith)
  read_tail-TailEnds (suc fuel) left body s h =
      let n = if ltb buff_size left then buff_size else left in
      elim (Bool-cases (left == 0)) [
        | inl none_left ↦ elim (Bool-cases (ltb (length body) 2)) [
          | inl short ↦ (piece_overrun s, rw (none_left, short) refl, tt)
          | inr two ↦ (
            piece (take (length body - 2) body) [] s,
            rw (none_left, two) refl,
            (
              refl,
              (
                [],
                ground arith,
                refl,
                omega (arith, length-append body [], ltb→ge _ _ two),
                subst (λ xs. take (length body - 2) body ≡ take (length xs - 2) xs)
                    (sym (append-nil body)) refl,
              ),
            ),
          )
        ]
        | inr some_left ↦ rw some_left (
            tail_round-TailEnds _ n left body s (v.read n s) (ground arith) (c.read_le n s)
              (c.read_front n s)
              (λ left' body' s' less. read_tail-TailEnds fuel left' body' s' (omega arith))
              (ground arith))
      ]

  -- The data of a chunk was read.
  pub record PieceRead (z : ℤ) (body left : Bytes) (s : S) (body' rest : Bytes) (s' : S)
      : Type 0 where
    pub data_ : Bytes
    pub line_end : Bytes
    pub sized : IsSized z data_ line_end
    pub text : body' ≡ joined body data_ line_end
    pub in_order : left ++ c.incoming s ≡ data_ ++ (line_end ++ (rest ++ c.incoming s'))

  abbrev pub IsPiece : ℤ → Bytes → Bytes → S → Piece S → Type 0
  IsPiece z body left s (piece_cut s') = (s1 : S) × (s' ≡ v.close s1)
  IsPiece z body left s (piece_overrun s') = Unit {0}
  IsPiece z body left s (piece body' rest s') = PieceRead z body left s body' rest s'

  -- What was there of the chunk was enough.
  from_buffer :
      (n : ℕ) (body left : Bytes) (s : S)
      → n + 2 ≤ length left
      → PieceRead (pos n) body left s (body ++ take n left) (drop (n + 2) left) s
  from_buffer n body left s h = record {
    data_ = take n left;
    line_end = take 2 (drop n left);
    sized = inl (
      ap pos (omega (arith, length-take n left)),
      omega (arith, length-take 2 (drop n left), length-drop n left),
    );
    text =
        (let two : length (take 2 (drop n left)) ≡ 2 =
            omega (arith, length-take 2 (drop n left), length-drop n left) in
          rw two refl);
    in_order =
        ap (λ xs. xs ++ c.incoming s)
          (sym (take-append-drop n left)
            ∙ ap (λ xs. take n left ++ xs)
                (sym (take-append-drop 2 (drop n left))
                  ∙ ap (λ xs. take 2 (drop n left) ++ xs) (drop-drop 2 n (n + 2) left refl)))
        ∙ append_assoc (take n left) _ (c.incoming s)
        ∙ ap (λ xs. take n left ++ xs)
            (append_assoc (take 2 (drop n left)) (drop (n + 2) left) (c.incoming s));
  }

  from_stream :
      (n : ℕ) (body left got : Bytes) (s s' : S) (body' : Bytes)
      → length left + length got ≡ n + 2
      → c.incoming s ≡ got ++ c.incoming s'
      → body' ≡ take (length ((body ++ left) ++ got) - 2) ((body ++ left) ++ got)
      → PieceRead (pos n) body left s body' [] s'
  from_stream n body left got s s' body' h e text = record {
    data_ = take n (left ++ got);
    line_end = drop n (left ++ got);
    sized = inl (
      ap pos (omega (arith, length-take n (left ++ got), length-append left got)),
      omega (arith, length-drop n (left ++ got), length-append left got),
    );
    text =
        (let two : length (drop n (left ++ got)) ≡ 2 =
            omega (arith, length-drop n (left ++ got), length-append left got) in
          rw two (
            text
            ∙ ap (λ xs. take (length xs - 2) xs) (append_assoc body left got)
            ∙ take-append_right (length (body ++ (left ++ got)) - 2) body (left ++ got) n
                (omega (arith, length-append body (left ++ got), length-append left got))));
    in_order =
        ap (λ xs. left ++ xs) e
        ∙ sym (append_assoc left got (c.incoming s'))
        ∙ ap (λ xs. xs ++ c.incoming s') (sym (take-append-drop n (left ++ got)))
        ∙ append_assoc (take n (left ++ got)) (drop n (left ++ got)) (c.incoming s');
  }

  IsPiece-tail :
      (n : ℕ) (body left : Bytes) (s : S) (b : Piece S)
      → length left < n + 2
      → IsTail ((n + 2) - length left) (body ++ left) s b
      → IsPiece (pos n) body left s b
  IsPiece-tail n body left s (piece_cut s') h ok = ok
  IsPiece-tail n body left s (piece_overrun s') h ok = tt
  IsPiece-tail n body left s (piece body' rest s') h (none_left, (got, size, later, two, text)) =
      subst (λ xs. PieceRead (pos n) body left s body' xs s') (sym none_left)
        (from_stream n body left got s s' body' (omega arith) later text)

  IsPiece-minus_one :
      (body : Bytes) (s : S) (b : Piece S) → IsTail 1 body s b → IsPiece (negsuc 0) body [] s b
  IsPiece-minus_one body s (piece_cut s') ok = ok
  IsPiece-minus_one body s (piece_overrun s') ok = tt
  IsPiece-minus_one body s (piece body' rest s') (none_left, (got, size, later, two, text)) =
      record {
        data_ = [];
        line_end = got;
        sized = inr (refl, refl, size);
        text = rw size (
            text
            ∙ take-append_left (length (body ++ got) - 2) body got
                (omega (arith, length-append body got))
            ∙ ap (λ n. take n body) (omega (arith, length-append body got)));
        in_order = later ∙ ap (λ xs. got ++ (xs ++ c.incoming s')) (sym none_left);
      }

  read_piece-negative :
      (fuel n : ℕ) (body left : Bytes) (s : S)
      → length (c.incoming s) < fuel
      → (b : Piece S) × (read_piece v fuel (negsuc n) body left s ≡ some b)
        × IsPiece (negsuc n) body left s b
  unfolding read_piece
  read_piece-negative fuel zero body [] s h =
      let (b, got, ok) = read_tail-TailEnds fuel 1 body s h in
      (b, got, IsPiece-minus_one body s b ok)
  read_piece-negative fuel zero body (x ∷ xs) s h =
      let some_data : (suc (length xs) == 0) ≡ false = ground arith in
      (piece_overrun s, rw some_data refl, tt)
  read_piece-negative fuel (suc n) body left s h =
      let not_one : (suc n == 0) ≡ false = ground arith in (piece_overrun s, rw not_one refl, tt)

  -- Reading the data of a chunk ends.
  pub read_piece-IsPiece :
      (fuel : ℕ) (z : ℤ) (body left : Bytes) (s : S)
      → length (c.incoming s) < fuel
      → (b : Piece S) × (read_piece v fuel z body left s ≡ some b) × IsPiece z body left s b
  unfolding read_piece
  read_piece-IsPiece fuel (negsuc n) body left s h = read_piece-negative fuel n body left s h
  read_piece-IsPiece fuel (pos n) body left s h = elim (Bool-cases (leb (2 ^ 31) (n + 2))) [
    | inl big ↦ (piece_overrun s, rw big refl, tt)
    | inr small ↦ elim (Bool-cases (leb (n + 2) (length left))) [
      | inl here ↦ (
        piece (body ++ take n left) (drop (n + 2) left) s,
        rw (small, here) refl,
        from_buffer n body left s (ground arith),
      )
      | inr more ↦
          let (b, got, ok) = read_tail-TailEnds fuel ((n + 2) - length left) (body ++ left) s h in
          (b, rw (small, more) got, IsPiece-tail n body left s b (ground arith) ok)
    ]
  ]
