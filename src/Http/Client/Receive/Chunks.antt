-- ===== src/Http/Client/Receive/Chunks.antt =====
-- The body of a response in chunks.
use qslary.Base.{
  subst, ℕ, zero, suc, ◌+◌, ◌<◌, ◌≡◌, refl, sym, ap, ◌∙◌, Bool, true, false, Option, some, List, [],
  ◌∷◌, ◌++◌, append_assoc, Bool-cases, inl, inr, length, take, length-append, arith,
}
use qslary.Base.Int.{ℤ}
use qslary.Base.Text.{Bytes}
use qslary.Stream.{Stream}
use qslary.Stream.FixSize.{Carries}
use qslary.Http.Status.{HttpStatus}
use qslary.Http.Parser.{Machine}
use qslary.Http.Parser.Reply.{ResponseEvent, ResponseParser, ChunkMachine, response_is_finished}
use qslary.Http.Client.Receive.{
  Head, broken, parsed, Piece, piece_cut, piece_overrun, piece, Reply, refused, overrun, accepted,
  recv_chunk_head, after_piece, after_chunk_head, recv_chunks,
}
use qslary.Http.Client.Receive.Feeding.{HeadRead, IsHead, taken, taken-rest, feed-HeadEnds}
use qslary.Http.Client.Receive.Pieces.{IsSized, joined, PieceRead, IsPiece, read_piece-IsPiece}

-- A chunk of a body as it stands in the input: its head, of which the last piece was read alone, its
-- data, and the line end.
pub record Chunk (M : Type 0) : Type 0 where
  pub before : Bytes
  pub last : Bytes
  pub machine : M
  pub data_ : Bytes
  pub line_end : Bytes

abbrev pub is_last : {M : Type 0} → List (Chunk M) → Bool
is_last [] = true
is_last (chunk ∷ chunks) = false

-- The body with the contents of the chunks.
abbrev pub contents : {M : Type 0} → Bytes → List (Chunk M) → Bytes
contents body [] = body
contents body (chunk ∷ chunks) = contents (joined body chunk.data_ chunk.line_end) chunks

IsSized-some : (z : ℤ) (data_ line_end : Bytes) → IsSized z data_ line_end → 0 < length line_end
IsSized-some z data_ line_end (inl (e, two)) = omega arith
IsSized-some z data_ line_end (inr (e, none_, one)) = omega arith

module _ {M : Type 0} (p : Machine M ResponseEvent) (q : ChunkMachine M) where
  -- What the machine, started anew, makes of the last piece of the head.
  abbrev pub last_run : Chunk M → ℕ × M
  last_run chunk = let did = p.execute chunk.last (q.init chunk.machine) in (did.1, did.2)

  abbrev pub framed : List (Chunk M) → Bytes
  framed [] = []
  framed (chunk ∷ chunks) =
      (chunk.before ++ take (last_run chunk).0 chunk.last)
      ++ (chunk.data_ ++ (chunk.line_end ++ framed chunks))

  -- The machine is done with the head; the data and the line end are as long as it says, and only the last chunk is
  -- said to be the last.
  abbrev pub AllChunks : List (Chunk M) → Type 0
  AllChunks [] = Unit {0}
  AllChunks (chunk ∷ chunks) =
      (p.finish (last_run chunk).1 ≡ true)
      × IsSized (q.content_len (last_run chunk).1) chunk.data_ chunk.line_end
      × (q.chunks_done (last_run chunk).1 ≡ is_last chunks)
      × AllChunks chunks

module _ {S M : Type 0} (v : Stream S) (c : Carries v) (p : Machine M ResponseEvent)
    (q : ChunkMachine M) (atoi : Bytes → HttpStatus) where
  abbrev pub total : Bytes → S → ℕ
  total left s = length left + length (c.incoming s)

  -- The body goes on with the contents of chunks that stand in the input.
  abbrev pub IsMore : Bytes → Bytes → S → Reply S → Type 0
  IsMore body left s (refused s') = (s1 : S) × (s' ≡ v.close s1)
  IsMore body left s (overrun s') = Unit {0}
  IsMore body left s (accepted rsp s') =
      (chunk : Chunk M) × (chunks : List (Chunk M)) × AllChunks p q (chunk ∷ chunks)
      × (rsp.body ≡ contents body (chunk ∷ chunks))
      × ((rest : Bytes) × (left ++ c.incoming s ≡ framed p q (chunk ∷ chunks) ++ rest))

  abbrev pub MoreEnds : Bytes → Bytes → S → Option (Reply S) → Type 0
  MoreEnds body left s o = (res : Reply S) × (o ≡ some res) × IsMore body left s res

  -- One chunk was read: the parser, its head and its data.
  module _ (body left : Bytes) (s : S) (r : ResponseParser M) (left1 : Bytes) (s1 : S)
      (head : HeadRead v c p q atoi true left s r left1 s1) (body2 left2 : Bytes) (s2 : S)
      (data' : PieceRead v c (q.content_len r.machine) body left1 s1 body2 left2 s2) where
    abbrev chunk : Chunk M
    chunk = record {
      before = head.before;
      last = head.last;
      machine = head.machine;
      data_ = data'.data_;
      line_end = data'.line_end;
    }

    chunk_in_order :
        left ++ c.incoming s
        ≡ taken v c p q atoi head ++ (data'.data_ ++ (data'.line_end ++ (left2 ++ c.incoming s2)))
    chunk_in_order =
        taken-rest v c p q atoi head ∙ ap (λ xs. taken v c p q atoi head ++ xs) data'.in_order

    some_line_end : 0 < length data'.line_end
    some_line_end = IsSized-some (q.content_len r.machine) data'.data_ data'.line_end data'.sized

    less : total left2 s2 < total left s
    less = omega (
      arith,
      ap length (taken-rest v c p q atoi head),
      ap length data'.in_order,
      some_line_end,
      length-append left (c.incoming s),
      length-append (taken v c p q atoi head) (left1 ++ c.incoming s1),
      length-append left1 (c.incoming s1),
      length-append data'.data_ (data'.line_end ++ (left2 ++ c.incoming s2)),
      length-append data'.line_end (left2 ++ c.incoming s2),
      length-append left2 (c.incoming s2),
    )

    with_chunk :
        (chunks : List (Chunk M))
        → q.chunks_done r.machine ≡ is_last chunks
        → AllChunks p q chunks
        → (rest : Bytes) → left2 ++ c.incoming s2 ≡ framed p q chunks ++ rest
        → AllChunks p q (chunk ∷ chunks)
          × (left ++ c.incoming s ≡ framed p q (chunk ∷ chunks) ++ rest)
    unfolding response_is_finished
    with_chunk chunks ends ok rest later = (
      (
        ap (λ m. p.finish m) head.state ∙ head.done,
        subst (λ z. IsSized z data'.data_ data'.line_end)
            (sym (ap (λ m. q.content_len m) head.state)) data'.sized,
        ap (λ m. q.chunks_done m) head.state ∙ ends,
        ok,
      ),
      chunk_in_order
          ∙ ap (λ xs. taken v c p q atoi head ++ (data'.data_ ++ (data'.line_end ++ xs))) later
          ∙ ap (λ xs. taken v c p q atoi head ++ (data'.data_ ++ xs))
              (sym (append_assoc data'.line_end (framed p q chunks) rest))
          ∙ ap (λ xs. taken v c p q atoi head ++ xs)
              (sym (append_assoc data'.data_ (data'.line_end ++ framed p q chunks) rest))
          ∙ sym (
              append_assoc (taken v c p q atoi head)
                (data'.data_ ++ (data'.line_end ++ framed p q chunks)) rest),
    )

    last_chunk :
        q.chunks_done r.machine ≡ true
        → IsMore body left s (accepted (record r.response { body = body2 }) s2)
    last_chunk ends =
        let (ok, later) = with_chunk [] ends tt (left2 ++ c.incoming s2) refl in
        (chunk, [], ok, data'.text, (left2 ++ c.incoming s2, later))

    IsMore-chunks :
        q.chunks_done r.machine ≡ false
        → (res : Reply S) → IsMore body2 left2 s2 res
        → IsMore body left s res
    IsMore-chunks goes_on (refused s') ok = ok
    IsMore-chunks goes_on (overrun s') ok = tt
    IsMore-chunks goes_on (accepted rsp s') (next, chunks, ok, text, (rest, later)) =
        let (ok', later') = with_chunk (next ∷ chunks) goes_on ok rest later in
        (
          chunk,
          next ∷ chunks,
          ok',
          text ∙ ap (λ xs. contents xs (next ∷ chunks)) data'.text,
          (rest, later'),
        )

    after_piece-MoreEnds :
        (next : Bytes → Bytes → ResponseParser M → S → Option (Reply S))
        → (total left2 s2 < total left s → MoreEnds body2 left2 s2 (next body2 left2 r s2))
        → MoreEnds body left s (after_piece v p q atoi next r (piece body2 left2 s2))
    unfolding after_piece
    after_piece-MoreEnds next go = elim (Bool-cases (q.chunks_done r.machine)) [
      | inl ends ↦ (accepted (record r.response { body = body2 }) s2, rw ends refl, last_chunk ends)
      | inr goes_on ↦
          let (res, got, ok) = go less in (res, rw goes_on got, IsMore-chunks goes_on res ok)
    ]

  module _ (fuel : ℕ) (body left : Bytes) (s : S)
      (next : Bytes → Bytes → ResponseParser M → S → Option (Reply S))
      (go : (body' left' : Bytes) (r' : ResponseParser M) (s' : S)
        → total left' s' < total left s
        → MoreEnds body' left' s' (next body' left' r' s')) where
    after_piece_any :
        (r : ResponseParser M) (left1 : Bytes) (s1 : S)
        → HeadRead v c p q atoi true left s r left1 s1
        → (b : Piece S) → IsPiece v c (q.content_len r.machine) body left1 s1 b
        → MoreEnds body left s (after_piece v p q atoi next r b)
    unfolding after_piece
    after_piece_any r left1 s1 head (piece_cut s2) ok = (refused s2, refl, ok)
    after_piece_any r left1 s1 head (piece_overrun s2) ok = (overrun s2, refl, tt)
    after_piece_any r left1 s1 head (piece body2 left2 s2) data' =
        after_piece-MoreEnds body left s r left1 s1 head body2 left2 s2 data' next
          (go body2 left2 r s2)

    after_chunk_head-MoreEnds :
        (h : Head M S)
        → total left s < fuel
        → IsHead v c p q atoi true left s h
        → MoreEnds body left s (after_chunk_head v p q atoi fuel next body h)
    unfolding after_chunk_head
    after_chunk_head-MoreEnds (broken s1) small ok = (refused s1, refl, ok)
    after_chunk_head-MoreEnds (parsed r left1 s1) small ok =
        let (b, got, is_piece) =
          read_piece-IsPiece v c fuel (q.content_len r.machine) body left1 s1 (
            omega (
              arith,
              ap length (taken-rest v c p q atoi ok),
              length-append left (c.incoming s),
              length-append (taken v c p q atoi ok) (left1 ++ c.incoming s1),
              length-append left1 (c.incoming s1),
            )) in
        let (res, got', ok') = after_piece_any r left1 s1 ok b is_piece in (res, rw got got', ok')

  -- Reading the chunks ends.
  pub recv_chunks-MoreEnds :
      (fuel n : ℕ) (body left : Bytes) (r : ResponseParser M) (s : S)
      → total left s + 1 < fuel
      → total left s < n
      → MoreEnds body left s (recv_chunks v p q atoi fuel n body left r s)
  unfolding recv_chunks recv_chunk_head
  recv_chunks-MoreEnds fuel zero body left r s small less = absurd (omega arith)
  recv_chunks-MoreEnds fuel (suc n) body left r s small less =
      let (h, got, ok) = feed-HeadEnds v c p q atoi true fuel left r s (omega arith) in
      let (res, got', ok') =
        after_chunk_head-MoreEnds fuel body left s
          (λ body' left' r' s'. recv_chunks v p q atoi fuel n body' left' r' s')
          (λ body' left' r' s' less'.
            recv_chunks-MoreEnds fuel n body' left' r' s' (omega arith) (omega arith))
          h (omega arith) ok in
      (res, rw got got', ok')
