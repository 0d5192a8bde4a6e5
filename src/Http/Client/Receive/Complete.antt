-- ===== src/Http/Client/Receive/Complete.antt =====
-- What a response that a client accepts is made of.
use qslary.Base.{Bool, ℕ, ◌≡◌, ◌⊎◌, true, false, Option, List, [], ◌∷◌, ◌++◌, length, take}
use qslary.Base.Text.{Bytes}
use qslary.Stream.{Stream}
use qslary.Stream.FixSize.{Carries}
use qslary.Http.Status.{HttpStatus}
use qslary.Http.Response.{HttpResponse}
use qslary.Http.Parser.{Machine}
use qslary.Http.Parser.Reply.{ResponseEvent, ChunkMachine, response_content_length}
use qslary.Http.Session.{has_body}
use qslary.Http.Client.Receive.{Reply, refused, overrun, accepted}
use qslary.Http.Client.Receive.Feeding.{run}
use qslary.Http.Client.Receive.Chunks.{Chunk, contents, framed, AllChunks}

module _ {S M : Type 0} (v : Stream S) (c : Carries v) (p : Machine M ResponseEvent)
    (q : ChunkMachine M) (atoi : Bytes → HttpStatus) (to_number : Bytes → Option ℕ)
    (resizes : ℕ → Bool) where
  -- The input goes on with these bytes behind a head: behind what the machine took of its last piece.
  abbrev pub IsBehindHead : S → Bytes → Type 0
  IsBehindHead s rest =
      (before last : Bytes) × (m : M) × (p.finish (run v c p q atoi false last m).1 ≡ true)
      × (c.incoming s ≡ (before ++ take (run v c p q atoi false last m).0 last) ++ rest)

  -- No body is announced and there is none, or the body is what stands behind the head, as many bytes
  -- as are announced.
  abbrev pub IsPlain : S → HttpResponse → Type 0
  IsPlain s rsp =
      (rest : Bytes) × IsBehindHead s rest
      × (((has_body (response_content_length to_number rsp) ≡ false) × (rsp.body ≡ []))
          ⊎ (length rsp.body ≡ response_content_length to_number rsp)
            × (rsp.body ≡ take (response_content_length to_number rsp) rest))

  -- The body is made of the chunks that stand behind the head, one behind the other.
  abbrev pub IsChunked : S → HttpResponse → Type 0
  IsChunked s rsp =
      (chunk : Chunk M) × (chunks : List (Chunk M)) × AllChunks p q (chunk ∷ chunks)
      × (rsp.body ≡ contents [] (chunk ∷ chunks))
      × ((rest : Bytes) × IsBehindHead s (framed p q (chunk ∷ chunks) ++ rest))

  abbrev pub IsReply : S → Reply S → Type 0
  IsReply s (refused s') = (s1 : S) × (s' ≡ v.close s1)
  IsReply s (overrun s') = Unit {0}
  IsReply s (accepted rsp s') = IsPlain s rsp ⊎ IsChunked s rsp
