-- ===== src/Channel.antt =====
-- net/Channel.h and net/Channel.cc: the events that a channel waits for, and the callbacks that an
-- event brings about. `revents_` is set by the poller only, so it stays as it is during a dispatch.
pub mod Interest
use Prim.Native.Nat.{bit_and, bit_or}
use qslary.Base.{
  ℕ, ◌-◌, ◌^◌, ◌+◌, Bool, true, false, not, ◌&&◌, List, [], ◌∷◌, ◌++◌, ◌==◌, if◌then◌else◌,
}

-- The flags of poll(2) and epoll(7).
abbrev pub poll_in : ℕ
poll_in = 1

abbrev pub poll_pri : ℕ
poll_pri = 2

abbrev pub poll_out : ℕ
poll_out = 4

abbrev pub poll_err : ℕ
poll_err = 8

abbrev pub poll_hup : ℕ
poll_hup = 16

abbrev pub poll_nval : ℕ
poll_nval = 32

abbrev pub poll_rdhup : ℕ
poll_rdhup = 8192

abbrev pub none_event : ℕ
none_event = 0

abbrev pub read_event : ℕ
read_event = bit_or poll_in poll_pri

abbrev pub write_event : ℕ
write_event = poll_out

-- `~mask` of a 32-bit `int`, as a pattern.
abbrev pub complement : ℕ → ℕ
complement mask = 2 ^ 32 - 1 - mask

-- What a poller keeps in `index_`: kNew is also the value of the constructor.
pub data Index : Type 0 where
  k_new k_added k_deleted : Index

-- Whether a callback is set stands for the callback.
pub record Channel : Type 0 where
  pub fd : ℕ
  pub events : ℕ
  pub revents : ℕ
  pub index : Index
  pub log_hup : Bool
  pub tied : Bool
  pub event_handling : Bool
  pub added_to_loop : Bool
  pub has_read : Bool
  pub has_write : Bool
  pub has_close : Bool
  pub has_error : Bool

unfoldable pub create : ℕ → Channel
create fd = record {
  fd = fd;
  events = 0;
  revents = 0;
  index = k_new;
  log_hup = true;
  tied = false;
  event_handling = false;
  added_to_loop = false;
  has_read = false;
  has_write = false;
  has_close = false;
  has_error = false;
}

unfoldable pub is_none_event : Channel → Bool
is_none_event c = c.events == none_event

pub is_reading : Channel → Bool
is_reading c = not (bit_and c.events read_event == 0)

pub is_writing : Channel → Bool
is_writing c = not (bit_and c.events write_event == 0)

-- The first lines of `enableReading` and its like; what follows is `update`.
unfoldable pub with_reading : Channel → Channel
with_reading c = record c { events = bit_or c.events read_event }

unfoldable pub without_reading : Channel → Channel
without_reading c = record c { events = bit_and c.events (complement read_event) }

unfoldable pub with_writing : Channel → Channel
with_writing c = record c { events = bit_or c.events write_event }

unfoldable pub without_writing : Channel → Channel
without_writing c = record c { events = bit_and c.events (complement write_event) }

unfoldable pub without_all : Channel → Channel
without_all c = record c { events = none_event }

unfoldable pub tie : Channel → Channel
tie c = record c { tied = true }

pub data Callback : Type 0 where
  close_callback error_callback read_callback write_callback : Callback

abbrev pub received : ℕ → Channel → Bool
received mask c = not (bit_and c.revents mask == 0)

-- A callback that is set is called.
call : Bool → Callback → List Callback
call set callback = if set then callback ∷ [] else []

-- The callbacks in the order of the calls, and the channel after them.
handle_event_with_guard : Channel → List Callback × Channel
unfolding call
handle_event_with_guard c =
    let c' : Channel = record c { event_handling = true } in
    let closed =
      if received poll_hup c' && not (received poll_in c')
      then call c'.has_close close_callback
      else [] in
    let failed =
      if received (bit_or poll_err poll_nval) c' then call c'.has_error error_callback else [] in
    let readable =
      if received (bit_or poll_in (bit_or poll_pri poll_rdhup)) c'
      then call c'.has_read read_callback
      else [] in
    let writable = if received poll_out c' then call c'.has_write write_callback else [] in
    (closed ++ (failed ++ (readable ++ writable)), record c' { event_handling = false })

-- `alive`: the tied object can be locked.
unfoldable pub handle_event : Bool → Channel → List Callback × Channel
unfolding handle_event_with_guard
handle_event alive c =
    if c.tied
    then (if alive then handle_event_with_guard c else ([], c))
    else handle_event_with_guard c
