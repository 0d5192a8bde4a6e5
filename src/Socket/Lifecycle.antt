-- ===== src/Socket/Lifecycle.antt =====
-- The life of a socket: descriptor and connection, from creation to `close`.
use qslary.Base.{ℕ, ◌≡◌, Bool, true, false, none, some, if◌then◌else◌, arith}
use qslary.Base.Int.{negsuc}
use qslary.Base.Text.{Bytes}
use qslary.Stream.{failed}
use qslary.Socket.{Address, System, Socket, is_valid, close, connect, bind, recv, send}

-- A connected socket has a descriptor.
pub record IsSound (s : Socket) : Type 0 where
  pub connected_valid : (if s.is_connected then is_valid s else true) ≡ true

-- What a call keeps of a socket.
pub record SameKind (s s' : Socket) : Type 0 where
  pub same_family : s'.family ≡ s.family
  pub same_kind : s'.kind ≡ s.kind
  pub same_protocol : s'.protocol ≡ s.protocol

module _ {W : Type 0} (k : System W) where
  -- `close` leaves no descriptor and no connection; closing again makes no further system call, and
  -- sending and receiving make none and return -1.
  pub close_final :
      (s : Socket) (w : W) (n : ℕ) (bs : Bytes)
      → let c = close k s w in
        (is_valid c.0 ≡ false)
        × (c.0.is_connected ≡ false)
        × (close k c.0 c.1 ≡ c)
        × (recv k n c.0 c.1 ≡ (failed 0, c.1))
        × (send k bs c.0 c.1 ≡ (negsuc 0, c.1))
  unfolding close is_valid recv send
  close_final s w n bs = ground arith

  -- Connecting a sound socket leaves a sound socket of the same kind; it reports success only with
  -- the connection made.
  pub connect-IsSound :
      (addr : Address) (s s' : Socket) (w w' : W) (b : Bool)
      → IsSound s
      → connect k addr s w ≡ some (b, s', w')
      → IsSound s' × SameKind s s' × ((if b then s'.is_connected else true) ≡ true)
  unfolding connect is_valid
  connect-IsSound addr s s' w w' b h e = ground arith

  -- A refused connection, on a socket with a descriptor and of the address's family, is reported,
  -- and the descriptor is closed.
  pub connect_refused :
      (addr : Address) (s : Socket) (w : W) (fd : ℕ)
      → s.socketfd ≡ some fd
      → addr.family ≡ s.family
      → (k.sys_connect (some fd) addr w).0 ≡ false
      → connect k addr s w
        ≡ some (
          false,
          record s { is_connected = false; socketfd = none },
          k.sys_close (some fd) (k.sys_connect (some fd) addr w).1,
        )
  unfolding connect is_valid
  connect_refused addr s w fd h f e = ground arith

  -- Binding keeps a sound socket sound, of the same kind, connected or not as it was.
  pub bind-IsSound :
      (addr : Address) (s s' : Socket) (w w' : W) (b : Bool)
      → IsSound s
      → bind k addr s w ≡ some (b, s', w')
      → IsSound s' × SameKind s s' × (s'.is_connected ≡ s.is_connected)
  unfolding bind is_valid
  bind-IsSound addr s s' w w' b h e = ground arith
