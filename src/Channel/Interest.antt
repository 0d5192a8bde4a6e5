-- ===== src/Channel/Interest.antt =====
-- The events that a channel waits for, as two switches.
use qslary.Base.{ℕ, ◌≡◌, refl, ◌+◌, Bool, true, false, not, if◌then◌else◌}
use qslary.Channel.{
  Channel, read_event, write_event, is_none_event, is_reading, is_writing, with_reading,
  without_reading, with_writing, without_writing, without_all,
}

-- The value of `events_` for the two switches.
abbrev pub interest_of : Bool → Bool → ℕ
interest_of reading writing =
    (if reading then read_event else 0) + (if writing then write_event else 0)

-- The channel's events are those of two switches.
abbrev pub IsSwitched : Bool → Bool → Channel → Type 0
IsSwitched reading writing c = c.events ≡ interest_of reading writing

-- A channel whose events are two switches has just these two, and each operation moves the one
-- that it names: reading and writing do not disturb each other.
pub switches :
    (r w : Bool) (c : Channel)
    → IsSwitched r w c
    → ((is_reading c ≡ r) × (is_writing c ≡ w) × (is_none_event c ≡ (if r then false else not w)))
      × IsSwitched true w (with_reading c)
      × IsSwitched false w (without_reading c)
      × IsSwitched r true (with_writing c)
      × IsSwitched r false (without_writing c)
      × IsSwitched false false (without_all c)
unfolding is_reading is_writing is_none_event with_reading without_reading with_writing
    without_writing without_all
switches false false c h = rw h ((refl, refl, refl), refl, refl, refl, refl, refl)
switches false true c h = rw h ((refl, refl, refl), refl, refl, refl, refl, refl)
switches true false c h = rw h ((refl, refl, refl), refl, refl, refl, refl, refl)
switches true true c h = rw h ((refl, refl, refl), refl, refl, refl, refl, refl)
