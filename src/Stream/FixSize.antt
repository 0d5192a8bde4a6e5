-- ===== src/Stream/FixSize.antt =====
-- What the fixed-size transfers promise over any stream that respects the length of a call.
use qslary.Base.{
  ℕ, zero, suc, ◌+◌, ◌-◌, ◌^◌, ◌≤◌, ◌<◌, ◌≡◌, refl, ap, sym, subst, ◌∙◌, ◌⊎◌, inl, inr, Option,
  some, [], ◌∷◌, ◌++◌, append-nil, append_assoc, ◌==◌, ==_iff, Bool-cases, length, length-append,
  length-drop, take, drop, take-append-drop, take-append_left, take-all, lt→ltb, arith,
}
use qslary.Base.Int.{ℤ, pos, negsuc, pos_part, to_int32}
use qslary.Base.Text.{Bytes}
use qslary.Stream.{
  Transfer, moved, failed, placed, Stream, Done, read_round, read_loop, read_fix_size, write_round,
  write_loop, write_fix_size,
}

-- A stream as a pair of byte sequences: the bytes still to come in, and the bytes taken out so far.
-- A call transfers at most what was asked for, from the front of the one, to the end of the other.
pub record Carries {S : Type 0} (v : Stream S) : Type 0 where
  pub incoming : S → Bytes
  pub outgoing : S → Bytes
  pub read_le : (n : ℕ) (s : S) → length (placed (v.read n s).0) ≤ n
  pub read_front : (n : ℕ) (s : S) → incoming s ≡ placed (v.read n s).0 ++ incoming (v.read n s).1
  pub write_end :
      (bs : Bytes) (s : S)
      → outgoing (v.write bs s).1 ≡ outgoing s ++ take (pos_part (v.write bs s).0) bs

-- Fewer than `n` bytes were transferred, since a call has returned 0 or an error.
abbrev pub CutShort : {S : Type 0} → ℕ → Done S → Type 0
CutShort n d =
    (length d.bytes < n) × ((d.returned ≡ pos 0) ⊎ ((code : ℕ) × (d.returned ≡ negsuc code)))

-- All of the `n` bytes were transferred, and `n` is the result.
abbrev pub Complete : {S : Type 0} → ℕ → Done S → Type 0
Complete n d = (d.returned ≡ to_int32 n) × (length d.bytes ≡ n)

module _ {S : Type 0} (v : Stream S) (c : Carries v) (start : S) where
  -- The loop is where it should be: `got` came first, `left` bytes are missing.
  record Reading (total left : ℕ) (got : Bytes) (s : S) : Type 0 where
    counted : length got + left ≡ total
    in_order : c.incoming start ≡ got ++ c.incoming s

  abbrev ReadEnds : ℕ → Option (Done S) → Type 0
  ReadEnds total o =
      (d : Done S) × (o ≡ some d)
      × (Complete total d ⊎ CutShort total d)
      × (c.incoming start ≡ d.bytes ++ c.incoming d.stream)

  front :
      (left : ℕ) (s : S) (t : Transfer × S)
      → v.read left s ≡ t
      → c.incoming s ≡ placed t.0 ++ c.incoming t.1
  front left s t e =
      subst (λ t. c.incoming s ≡ placed t.0 ++ c.incoming t.1) e (c.read_front left s)

  within : (left : ℕ) (s : S) (t : Transfer × S) → v.read left s ≡ t → length (placed t.0) ≤ left
  within left s t e = subst (λ t. length (placed t.0) ≤ left) e (c.read_le left s)

  read_round-ReadEnds :
      (next : ℕ → Bytes → S → Option (Done S)) (total left : ℕ) (got : Bytes) (s : S)
      (t : Transfer × S)
      → v.read left s ≡ t
      → 0 < left
      → Reading total left got s
      → ((left' : ℕ) (got' : Bytes) (s' : S)
          → left' < left
          → Reading total left' got' s'
          → ReadEnds total (next left' got' s'))
      → ReadEnds total (read_round next left got t)
  unfolding read_round
  read_round-ReadEnds next total left got s (moved [], s') e h i rest = (
    record { returned = pos 0; bytes = got; stream = s' },
    refl,
    inr (omega (arith, i.counted), inl refl),
    i.in_order ∙ ap (λ xs. got ++ xs) (front left s (moved [], s') e),
  )
  read_round-ReadEnds next total left got s (moved (b ∷ bs), s') e h i rest =
      rest (left - length (b ∷ bs)) (got ++ (b ∷ bs)) s' (omega arith) (record {
        counted =
            omega
              (arith, length-append got (b ∷ bs), within left s (moved (b ∷ bs), s') e, i.counted);
        in_order =
            i.in_order
            ∙ ap (λ xs. got ++ xs) (front left s (moved (b ∷ bs), s') e)
            ∙ sym (append_assoc got (b ∷ bs) (c.incoming s'));
      })
  read_round-ReadEnds next total left got s (failed code, s') e h i rest = (
    record { returned = negsuc code; bytes = got; stream = s' },
    refl,
    inr (omega (arith, i.counted), inr (code, refl)),
    i.in_order ∙ ap (λ xs. got ++ xs) (front left s (failed code, s') e),
  )

  read_loop-ReadEnds :
      (total fuel left : ℕ) (got : Bytes) (s : S)
      → left < fuel
      → Reading total left got s
      → ReadEnds total (read_loop v total fuel left got s)
  unfolding read_loop
  read_loop-ReadEnds total zero left got s h i = absurd (omega arith)
  read_loop-ReadEnds total (suc fuel) left got s h i = elim (Bool-cases (left == 0)) [
    | inl done ↦ (
      record { returned = to_int32 total; bytes = got; stream = s },
      rw done,
      inl (refl, omega (arith, (==_iff left 0).0 done, i.counted)),
      i.in_order,
    )
    | inr more ↦ rw more (
        read_round-ReadEnds _ total left got s (v.read left s) refl (ground arith) i
          λ left' got' s' lt i'. read_loop-ReadEnds total fuel left' got' s' (omega arith) i')
  ]

  abbrev WriteEnds : Bytes → Option (Done S) → Type 0
  WriteEnds buffer o =
      (d : Done S) × (o ≡ some d)
      × (Complete (length buffer) d ⊎ CutShort (length buffer) d)
      × (d.bytes ≡ take (length d.bytes) buffer)
      × (c.outgoing d.stream ≡ c.outgoing start ++ d.bytes)

  -- The loop is where it should be: `sent` has gone out, `rest` is still to go.
  record Writing (buffer rest sent : Bytes) (s : S) : Type 0 where
    split : buffer ≡ sent ++ rest
    out : c.outgoing s ≡ c.outgoing start ++ sent

  sent_front : (buffer rest sent : Bytes) → buffer ≡ sent ++ rest → sent ≡ take (length sent) buffer
  sent_front buffer rest sent e =
      rw (e, take-append_left (length sent) sent rest (omega arith))
        (sym (take-all (length sent) sent (omega arith)))

  stopped-WriteEnds :
      (buffer rest sent : Bytes) (s s' : S) (z : ℤ)
      → Writing buffer rest sent s
      → 0 < length rest
      → c.outgoing s' ≡ c.outgoing s
      → (z ≡ pos 0) ⊎ ((code : ℕ) × (z ≡ negsuc code))
      → WriteEnds buffer (some (record { returned = z; bytes = sent; stream = s' }))
  stopped-WriteEnds buffer rest sent s s' z i h e why = (
    record { returned = z; bytes = sent; stream = s' },
    refl,
    inr (omega (arith, ap length i.split, length-append sent rest), why),
    sent_front buffer rest sent i.split,
    e ∙ i.out,
  )

  end_of :
      (rest : Bytes) (s : S) (t : ℤ × S)
      → v.write rest s ≡ t
      → c.outgoing t.1 ≡ c.outgoing s ++ take (pos_part t.0) rest
  end_of rest s t e =
      subst (λ t. c.outgoing t.1 ≡ c.outgoing s ++ take (pos_part t.0) rest) e (c.write_end rest s)

  write_round-WriteEnds :
      (next : Bytes → Bytes → S → Option (Done S)) (buffer rest sent : Bytes) (s : S) (t : ℤ × S)
      → v.write rest s ≡ t
      → 0 < length rest
      → Writing buffer rest sent s
      → ((rest' sent' : Bytes) (s' : S)
          → length rest' < length rest
          → Writing buffer rest' sent' s'
          → WriteEnds buffer (next rest' sent' s'))
      → WriteEnds buffer (write_round next rest sent t)
  unfolding write_round
  write_round-WriteEnds next buffer rest sent s (pos zero, s') e h i go =
      stopped-WriteEnds buffer rest sent s s' (pos 0) i h
        (end_of rest s (pos zero, s') e ∙ append-nil (c.outgoing s)) (inl refl)
  write_round-WriteEnds next buffer rest sent s (pos (suc n), s') e h i go =
      go (drop (suc n) rest) (sent ++ take (suc n) rest) s'
        (omega (arith, length-drop (suc n) rest))
        (record {
          split =
              i.split
              ∙ ap (λ xs. sent ++ xs) (sym (take-append-drop (suc n) rest))
              ∙ sym (append_assoc sent (take (suc n) rest) (drop (suc n) rest));
          out =
              end_of rest s (pos (suc n), s') e
              ∙ ap (λ xs. xs ++ take (suc n) rest) i.out
              ∙ append_assoc (c.outgoing start) sent (take (suc n) rest);
        })
  write_round-WriteEnds next buffer rest sent s (negsuc code, s') e h i go =
      stopped-WriteEnds buffer rest sent s s' (negsuc code) i h
        (end_of rest s (negsuc code, s') e ∙ append-nil (c.outgoing s)) (inr (code, refl))

  write_loop-WriteEnds :
      (fuel : ℕ) (buffer rest sent : Bytes) (s : S)
      → length rest < fuel
      → Writing buffer rest sent s
      → WriteEnds buffer (write_loop v (length buffer) fuel rest sent s)
  unfolding write_loop
  write_loop-WriteEnds zero buffer rest sent s h i = absurd (omega arith)
  write_loop-WriteEnds (suc fuel) buffer rest sent s h i = elim (Bool-cases (length rest == 0)) [
    | inl done ↦ (
      record { returned = to_int32 (length buffer); bytes = sent; stream = s },
      rw done,
      inl (
        refl,
        omega (arith, (==_iff (length rest) 0).0 done, ap length i.split, length-append sent rest),
      ),
      sent_front buffer rest sent i.split,
      i.out,
    )
    | inr more ↦ rw more (
        write_round-WriteEnds _ buffer rest sent s (v.write rest s) refl (ground arith) i
          λ rest' sent' s' lt i'. write_loop-WriteEnds fuel buffer rest' sent' s' (omega arith) i')
  ]

module _ {S : Type 0} (v : Stream S) (c : Carries v) where
  -- `readFixSize` returns: it either reads all of the bytes asked for and returns their number as an
  -- `int`, or stops early with the 0 or the negative result of a read. Either way the bytes in the
  -- buffer are the front of what was to come in, in order, and the stream goes on behind them.
  pub read_fix_size-ReadEnds :
      (n : ℕ) (s : S)
      → n < 2 ^ 63
      → (d : Done S) × (read_fix_size v n s ≡ some d)
        × (Complete n d ⊎ CutShort n d)
        × (c.incoming s ≡ d.bytes ++ c.incoming d.stream)
  unfolding read_fix_size
  read_fix_size-ReadEnds n s h = rw (lt→ltb _ _ h) (
      read_loop-ReadEnds v c s n (suc n) n [] s (omega arith)
        (record { counted = omega arith; in_order = refl }))

  -- `writeFixSize` returns: it either sends the whole buffer and returns its length as an `int`, or
  -- stops early with the 0 or the negative result of a write. Either way what it sent is the front
  -- of the buffer, and it went out behind all that was sent before.
  pub write_fix_size-WriteEnds :
      (buffer : Bytes) (s : S)
      → (d : Done S) × (write_fix_size v buffer s ≡ some d)
        × (Complete (length buffer) d ⊎ CutShort (length buffer) d)
        × (d.bytes ≡ take (length d.bytes) buffer)
        × (c.outgoing d.stream ≡ c.outgoing s ++ d.bytes)
  unfolding write_fix_size
  write_fix_size-WriteEnds buffer s =
      write_loop-WriteEnds v c s (suc (length buffer)) buffer buffer [] s (omega arith)
        (record { split = refl; out = sym (append-nil (c.outgoing s)) })
