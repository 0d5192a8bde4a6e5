-- ===== src/Socket.antt =====
-- net/Socket.h and net/Socket.cc: a socket over the system's calls. The kernel is a parameter: a
-- type W of its states with one function for each call. A failed `assert` is a fault, `none`.
-- Flags, log lines and timeouts are left out.
pub mod Lifecycle
use qslary.Base.{
  ℕ, zero, suc, Bool, true, false, not, ◌&&◌, Option, none, some, ◌==◌, if◌then◌else◌,
}
use qslary.Base.Int.{ℤ, negsuc}
use qslary.Base.Text.{Bytes}
use qslary.Base.Fault.{◌>>=◌, ◌>>◌, require}
use qslary.Stream.{Transfer, failed}

pub record Address : Type 0 where
  pub family : ℕ
  pub raw : Bytes

abbrev pub af_unix : ℕ
af_unix = 1

abbrev pub af_inet : ℕ
af_inet = 2

abbrev pub af_inet6 : ℕ
af_inet6 = 10

abbrev pub sock_stream : ℕ
sock_stream = 1

-- A descriptor; `none` is -1.
abbrev pub Fd : Type 0
Fd = Option ℕ

-- The system's calls, each with the state of the kernel. A Boolean result is `rt == 0`.
pub record System (W : Type 0) : Type 0 where
  pub sys_socket : ℕ → ℕ → ℕ → W → Fd × W
  pub sys_setsockopt : Fd → ℕ → ℕ → W → Bool × W
  pub sys_connect : Fd → Address → W → Bool × W
  pub sys_bind : Fd → Address → W → Bool × W
  pub sys_listen : Fd → ℕ → W → Bool × W
  pub sys_close : Fd → W → W
  pub sys_recv : Fd → ℕ → W → Transfer × W
  pub sys_send : Fd → Bytes → W → ℤ × W
  pub sys_getpeername : Fd → ℕ → W → Option Address × W
  pub sys_getsockname : Fd → ℕ → W → Option Address × W

pub record Socket : Type 0 where
  pub socketfd : Fd
  pub family : ℕ
  pub kind : ℕ
  pub protocol : ℕ
  pub is_connected : Bool
  pub local_address : Option Address
  pub remote_address : Option Address

pub create : ℕ → ℕ → ℕ → Socket
create family kind protocol = record {
  socketfd = none;
  family = family;
  kind = kind;
  protocol = protocol;
  is_connected = false;
  local_address = none;
  remote_address = none;
}

unfoldable pub create_tcp_socket : Address → Socket
unfolding create
create_tcp_socket addr = create addr.family sock_stream 0

unfoldable pub is_valid : Socket → Bool
is_valid s = elim s.socketfd [ none ↦ false | some fd ↦ true ]

module _ {W : Type 0} (k : System W) where
  -- `setOption`, which asserts that the call succeeds.
  set_option : Fd → ℕ → ℕ → W → Option W
  set_option fd level option w = do
    let rt = k.sys_setsockopt fd level option w
    require rt.0
    some rt.1

  -- SOL_SOCKET, SO_REUSEADDR; then IPPROTO_TCP, TCP_NODELAY for a stream socket.
  init_sock : Socket → W → Option W
  unfolding set_option
  init_sock s w = do
    w' ← set_option s.socketfd 1 2 w
    if s.kind == sock_stream then set_option s.socketfd 6 1 w' else some w'

  new_sock : Socket → W → Option (Socket × W)
  unfolding init_sock
  new_sock s w =
      let (fd, w') = k.sys_socket s.family s.kind s.protocol w in
      let s' : Socket = record s { socketfd = fd } in
      elim fd [ none ↦ some (s', w') | some n ↦ do w'' ← init_sock s' w'; some (s', w'') ]

  -- `if (!isVaild()) newSock();`
  ensure_sock : Socket → W → Option (Socket × W)
  unfolding is_valid new_sock
  ensure_sock s w = if is_valid s then some (s, w) else new_sock s w

  known_family : ℕ → Bool
  known_family f = if f == af_inet then true else if f == af_inet6 then true else f == af_unix

  -- The first call asks the system and keeps the answer. An unknown family fails an `assert`.
  get_remote_address : Socket → W → Option (Socket × W)
  unfolding known_family
  get_remote_address s w = elim s.remote_address [
    | some a ↦ some (s, w)
    | none ↦ do
      require (known_family s.family)
      let answer = k.sys_getpeername s.socketfd s.family w
      some (record s { remote_address = answer.0 }, answer.1)
  ]

  get_local_address : Socket → W → Option (Socket × W)
  unfolding known_family
  get_local_address s w = elim s.local_address [
    | some a ↦ some (s, w)
    | none ↦ do
      require (known_family s.family)
      let answer = k.sys_getsockname s.socketfd s.family w
      some (record s { local_address = answer.0 }, answer.1)
  ]

  -- Closes the descriptor once; always `true`.
  pub close : Socket → W → Socket × W
  close s w = elim s.socketfd [
    | none ↦ (record s { is_connected = false }, w)
    | some n ↦ (record s { is_connected = false; socketfd = none }, k.sys_close (some n) w)
  ]

  pub bind : Address → Socket → W → Option (Bool × Socket × W)
  unfolding ensure_sock get_local_address
  bind addr s w = do
    (s', w') ← ensure_sock s w
    if not (addr.family == s'.family) then some (false, s', w') else (do
      let rt = k.sys_bind s'.socketfd addr w'
      if not rt.0
          then some (false, s', rt.1)
          else (do (s'', w'') ← get_local_address s' rt.1; some (true, s'', w'')))

  -- The two branches on the timeout do the same.
  unfoldable pub connect : Address → Socket → W → Option (Bool × Socket × W)
  unfolding ensure_sock get_local_address get_remote_address close
  connect addr s w = do
    (s', w') ← ensure_sock s w
    if not (is_valid s')
        then some (false, s', w')
        else if not (addr.family == s'.family)
        then some (false, s', w')
        else (do
          let rt = k.sys_connect s'.socketfd addr w'
          if not rt.0 then (let c = close s' rt.1 in some (false, c.0, c.1)) else (do
            (s1, w1) ← get_remote_address (record s' { is_connected = true }) rt.1
            (s2, w2) ← get_local_address s1 w1
            some (true, s2, w2)))

  unfoldable pub listen : ℕ → Socket → W → Bool × W
  unfolding is_valid
  listen backlog s w = if is_valid s then k.sys_listen s.socketfd backlog w else (false, w)

  -- `recv` and `send` return -1 with no system call on a socket that is not connected.
  unfoldable pub recv : ℕ → Socket → W → Transfer × W
  recv length s w = if s.is_connected then k.sys_recv s.socketfd length w else (failed 0, w)

  unfoldable pub send : Bytes → Socket → W → ℤ × W
  send buffer s w = if s.is_connected then k.sys_send s.socketfd buffer w else (negsuc 0, w)
