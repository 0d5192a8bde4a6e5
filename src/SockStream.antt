-- ===== src/SockStream.antt =====
-- net/SockStream.h and net/SockStream.cc: the stream over a socket. Its state is the stream's own
-- and the kernel's.
pub mod Transfers
use qslary.Base.{
  ℕ, ◌≡◌, Bool, true, false, Option, none, some, [], ◌&&◌, if◌then◌else◌, take, drop, length,
}
use qslary.Base.Int.{ℤ, pos, negsuc}
use qslary.Base.Text.{Bytes}
use qslary.Base.Memory.{store, load}
use qslary.Base.Fault.{◌>>=◌}
use qslary.ByteArray.{ByteArray, get_write_buffer, get_read_buffer}
use qslary.Stream.{Transfer, moved, failed, result, placed, Stream}
use qslary.Socket
use qslary.Socket.{Socket, System}

-- `sock` is `none` for a null pointer; `ower` is the source's spelling.
pub record SockStream : Type 0 where
  pub sock : Option Socket
  pub ower : Bool

unfoldable pub is_connected : SockStream → Bool
is_connected t = elim t.sock [ none ↦ false | some s ↦ s.is_connected ]

module _ {W : Type 0} (k : System W) where
  unfoldable pub close : SockStream × W → SockStream × W
  close (t, w) = elim t.sock [
    | none ↦ (t, w)
    | some s ↦ let c = Socket.close k s w in (record t { sock = some c.0 }, c.1)
  ]

  -- The destructor closes a socket that it owns.
  unfoldable pub destroy : SockStream × W → SockStream × W
  unfolding close
  destroy (t, w) = if t.ower then close (t, w) else (t, w)

  read_from : Option Socket → ℕ → W → Transfer × W
  read_from none length w = (failed 0, w)
  read_from (some s) length w = if s.is_connected then Socket.recv k length s w else (failed 0, w)

  unfoldable pub read : ℕ → SockStream × W → Transfer × (SockStream × W)
  unfolding read_from
  read length (t, w) = let r = read_from t.sock length w in (r.0, (t, r.1))

  write_to : Option Socket → Bytes → W → ℤ × W
  write_to none bytes w = (negsuc 0, w)
  write_to (some s) bytes w = if s.is_connected then Socket.send k bytes s w else (negsuc 0, w)

  unfoldable pub write : Bytes → SockStream × W → ℤ × (SockStream × W)
  unfolding write_to
  write bytes (t, w) = let r = write_to t.sock bytes w in (r.0, (t, r.1))

  -- Receives into the space behind the write index. The index stays where it is.
  pub read_array : ℕ → ByteArray → SockStream × W → Option (ℤ × ByteArray × (SockStream × W))
  unfolding read
  read_array length b (t, w) =
      if is_connected t
      then (do
        (iov, b') ← get_write_buffer length b
        let (got, tw) = read iov.iov_len (t, w)
        buffer' ← store iov.iov_base (placed got) b'.buffer
        some (result got, record b' { buffer = buffer' }, tw))
      else some (negsuc 0, b, (t, w))

  -- Takes the bytes off the array, then sends them.
  pub write_array : ℕ → ByteArray → SockStream × W → Option (ℤ × ByteArray × (SockStream × W))
  unfolding write
  write_array length b (t, w) =
      if is_connected t
      then (do
        let (iov, b') = get_read_buffer length b
        bytes ← load iov.iov_base iov.iov_len b.buffer
        let (n, tw) = write bytes (t, w)
        some (n, b', tw))
      else some (negsuc 0, b, (t, w))

  -- The virtual functions of `Stream`.
  abbrev pub sock_stream : Stream (SockStream × W)
  sock_stream = record {
    read = read;
    write = write;
    read_array = read_array;
    write_array = write_array;
    close = close;
  }
