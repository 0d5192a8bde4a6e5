-- ===== src/Http/Client/Exchange/Outcome.antt =====
-- How an exchange over a connection ends.
use qslary.Base.{Bool, ℕ, ◌≡◌, ◌⊎◌, Option, some, none}
use qslary.Base.Text.{Bytes}
use qslary.Stream.{Stream}
use qslary.Stream.FixSize.{Carries}
use qslary.Stream.Limits.{IsLimited}
use qslary.Http.Response.{HttpResponse}
use qslary.Http.Status.{HttpStatus}
use qslary.Http.Parser.{Machine}
use qslary.Http.Parser.Reply.{ResponseEvent, ChunkMachine}
use qslary.Http.Client.Receive.{Reply}
use qslary.Http.Client.Receive.Complete.{IsPlain, IsChunked}
use qslary.Http.Client.Exchange.{ok, timeout, Talk, ended, overran}

module _ {S M : Type 0} (v : Stream S) (c : Carries v) (d : IsLimited v c)
    (p : Machine M ResponseEvent) (q : ChunkMachine M) (atoi : Bytes → HttpStatus)
    (to_number : Bytes → Option ℕ) (resizes : ℕ → Bool) (fuel : ℕ) where
  -- A response with the code OK, or none with the code TIMEOUT.
  abbrev pub IsOutcome : S → Talk S → Type 0
  IsOutcome s (overran s') = Unit {0}
  IsOutcome s (ended result s') =
      (result.result ≡ ok)
        × ((rsp : HttpResponse) × (result.response ≡ some rsp)
            × (IsPlain v c p q atoi to_number resizes s rsp
                ⊎ IsChunked v c p q atoi to_number resizes s rsp))
      ⊎ (result.result ≡ timeout) × (result.response ≡ none)
