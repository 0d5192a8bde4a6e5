-- ===== src/Stream/Limits.antt =====
-- A peer that answers what it is sent, and still sends only so much in all.
use qslary.Base.{
  ℕ, zero, suc, ◌+◌, ◌-◌, ◌≤◌, ◌≡◌, refl, sym, ap, ◌∙◌, Bool, true, Option, none, some, [], ◌∷◌,
  ◌++◌, ◌^◌, ◌==◌, ltb, leb, Bool-cases, inl, inr, length, take, drop, arith,
}
use qslary.Base.Int.{ℤ, pos, negsuc}
use qslary.Base.Text.{Bytes}
use qslary.Stream.{
  Stream, Transfer, moved, failed, placed, Done, read_round, read_loop, read_fix_size, write_round,
  write_loop, write_fix_size,
}
use qslary.Stream.FixSize.{Carries}

-- How many bytes the peer will send from now on at most, whatever is written to it: the bytes to come
-- are among them, what is read no longer is, and a write leads to no more.
pub record IsLimited {S : Type 0} (v : Stream S) (c : Carries v) : Type 0 where
  pub limit : S → ℕ
  pub incoming_le : (s : S) → length (c.incoming s) ≤ limit s
  pub read_le : (n : ℕ) (s : S) → length (placed (v.read n s).0) + limit (v.read n s).1 ≤ limit s
  pub write_le : (bs : Bytes) (s : S) → limit (v.write bs s).1 ≤ limit s

module _ {S : Type 0} (v : Stream S) (c : Carries v) (d : IsLimited v c) where
  abbrev within : ℕ → Option (Done S) → Bool
  within n none = true
  within n (some done) = leb (d.limit done.stream) n

  read_round-within :
      (next : ℕ → Bytes → S → Option (Done S)) (n left : ℕ) (got : Bytes) (t : Transfer × S)
      → length (placed t.0) + d.limit t.1 ≤ n
      → ((left' : ℕ) (got' : Bytes) (s' : S)
          → d.limit s' ≤ n
          → within n (next left' got' s') ≡ true)
      → within n (read_round next left got t) ≡ true
  unfolding read_round
  read_round-within next n left got (moved [], s) l go = ground arith
  read_round-within next n left got (moved (b ∷ bs), s) l go =
      go (left - length (b ∷ bs)) (got ++ (b ∷ bs)) s (omega arith)
  read_round-within next n left got (failed code, s) l go = ground arith

  read_loop-within :
      (total fuel n left : ℕ) (got : Bytes) (s : S)
      → d.limit s ≤ n
      → within n (read_loop v total fuel left got s) ≡ true
  unfolding read_loop
  read_loop-within total zero n left got s l = refl
  read_loop-within total (suc fuel) n left got s l = elim (Bool-cases (left == 0)) [
    | inl done ↦ rw done (ground arith)
    | inr more ↦ rw more (
        read_round-within _ n left got (v.read left s) (omega (arith, d.read_le left s))
          λ left' got' s' l'. read_loop-within total fuel n left' got' s' l')
  ]

  -- A read of a fixed size leads to no more bytes.
  pub read_fix_size-within :
      (n : ℕ) (s : S) (done : Done S)
      → read_fix_size v n s ≡ some done
      → d.limit done.stream ≤ d.limit s
  unfolding read_fix_size
  read_fix_size-within n s done ran =
      let ok : within (d.limit s) (read_fix_size v n s) ≡ true =
        elim (Bool-cases (ltb n (2 ^ 63))) [
          | inl small ↦ rw small (read_loop-within n (suc n) (d.limit s) n [] s (omega arith))
          | inr big ↦ rw big (ground arith)
        ] in
      let ok' : within (d.limit s) (some done) ≡ true = sym (ap (within (d.limit s)) ran) ∙ ok in
      ground arith

  write_round-within :
      (next : Bytes → Bytes → S → Option (Done S)) (n : ℕ) (rest sent : Bytes) (t : ℤ × S)
      → d.limit t.1 ≤ n
      → ((rest' sent' : Bytes) (s' : S) → d.limit s' ≤ n → within n (next rest' sent' s') ≡ true)
      → within n (write_round next rest sent t) ≡ true
  unfolding write_round
  write_round-within next n rest sent (pos zero, s) l go = ground arith
  write_round-within next n rest sent (pos (suc k), s) l go =
      go (drop (suc k) rest) (sent ++ take (suc k) rest) s l
  write_round-within next n rest sent (negsuc code, s) l go = ground arith

  write_loop-within :
      (total fuel n : ℕ) (rest sent : Bytes) (s : S)
      → d.limit s ≤ n
      → within n (write_loop v total fuel rest sent s) ≡ true
  unfolding write_loop
  write_loop-within total zero n rest sent s l = refl
  write_loop-within total (suc fuel) n rest sent s l = elim (Bool-cases (length rest == 0)) [
    | inl done ↦ rw done (ground arith)
    | inr more ↦ rw more (
        write_round-within _ n rest sent (v.write rest s) (omega (arith, d.write_le rest s))
          λ rest' sent' s' l'. write_loop-within total fuel n rest' sent' s' l')
  ]

  -- Writing a buffer leads to no more bytes either.
  pub write_fix_size-within :
      (buffer : Bytes) (s : S) (done : Done S)
      → write_fix_size v buffer s ≡ some done
      → d.limit done.stream ≤ d.limit s
  unfolding write_fix_size
  write_fix_size-within buffer s done ran =
      let ok : within (d.limit s) (some done) ≡ true =
        sym (ap (within (d.limit s)) ran)
        ∙ write_loop-within (length buffer) (suc (length buffer)) (d.limit s) buffer [] s
            (omega arith) in
      ground arith
