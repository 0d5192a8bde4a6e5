-- ===== src/Examples/Wire.antt =====
-- A kernel with one connection, which carries two bytes a call at most.
use qslary.Base.{
  ℕ, ◌≤◌, refl, sym, Bool, true, false, none, some, [], ◌∷◌, ◌++◌, length, length-take, take, drop,
  take-append-drop, if◌then◌else◌, ltb, arith,
}
use qslary.Base.Int.{pos}
use qslary.Base.Text.{Bytes, codes}
use qslary.Stream.{moved, Stream}
use qslary.Stream.FixSize.{Carries}
use qslary.Socket.{Address, System, Socket}
use qslary.SockStream.{SockStream, sock_stream}
use qslary.SockStream.Transfers.{CarriesBytes, sock_stream-Carries}

-- The bytes to come in, and the bytes that went out.
abbrev pub Line : Type 0
Line = Bytes × Bytes

abbrev pub at_most_two : ℕ → ℕ
at_most_two n = if ltb n 2 then n else 2

abbrev pub some_address : Address
some_address = record { family = 2; raw = 127 ∷ 0 ∷ 0 ∷ 1 ∷ [] }

-- Connections to an address of no bytes are refused.
abbrev pub reachable : Bytes → Bool
reachable [] = false
reachable (c ∷ cs) = true

abbrev pub wire : System Line
wire = record {
  sys_socket = λ family kind protocol w. (some 3, w);
  sys_setsockopt = λ fd level option w. (true, w);
  sys_connect = λ fd address w. (reachable address.raw, w);
  sys_bind = λ fd address w. (true, w);
  sys_listen = λ fd backlog w. (true, w);
  sys_close = λ fd w. w;
  sys_recv = λ fd n w. (moved (take (at_most_two n) w.0), (drop (at_most_two n) w.0, w.1));
  sys_send = λ fd bs w. (pos (length (take 2 bs)), (w.0, w.1 ++ take (length (take 2 bs)) bs));
  sys_getpeername = λ fd family w. (some some_address, w);
  sys_getsockname = λ fd family w. (some some_address, w);
}

pub at_most_two_le : (n : ℕ) (xs : Bytes) → length (take (at_most_two n) xs) ≤ n
at_most_two_le n xs = ground (arith, length-take (at_most_two n) xs)

abbrev pub wire-CarriesBytes : CarriesBytes wire
wire-CarriesBytes = record {
  incoming = λ w. w.0;
  outgoing = λ w. w.1;
  recv_le = λ fd n w. at_most_two_le n w.0;
  recv_front = λ fd n w. sym (take-append-drop (at_most_two n) w.0);
  send_end = λ fd bs w. refl;
}

abbrev pub connected_socket : Socket
connected_socket = record {
  socketfd = some 3;
  family = 2;
  kind = 1;
  protocol = 0;
  is_connected = true;
  local_address = none;
  remote_address = none;
}

abbrev pub connected : SockStream
connected = record { sock = some connected_socket; ower = true }

abbrev pub stream : Stream (SockStream × Line)
stream = sock_stream wire

abbrev pub stream-Carries : Carries stream
stream-Carries = sock_stream-Carries wire wire-CarriesBytes

abbrev pub line : Line
line = (codes "GET abcdef", [])

-- The same line as a stream of its own, with no calls on byte arrays.
abbrev pub line_stream : Stream Line
line_stream = record {
  read = λ n w. wire.sys_recv (some 3) n w;
  write = λ bs w. wire.sys_send (some 3) bs w;
  read_array = λ n b w. none;
  write_array = λ n b w. none;
  close = λ w. w;
}

abbrev pub line_stream-Carries : Carries line_stream
line_stream-Carries = record {
  incoming = λ w. w.0;
  outgoing = λ w. w.1;
  read_le = λ n w. at_most_two_le n w.0;
  read_front = λ n w. sym (take-append-drop (at_most_two n) w.0);
  write_end = λ bs w. refl;
}
