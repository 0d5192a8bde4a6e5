-- ===== src/SockStream/Transfers.antt =====
-- What a socket's stream transfers, and what becomes of the bytes of a byte array on the way.
use qslary.Base.{
  false, ℕ, ◌+◌, ◌^◌, ◌≤◌, ◌<◌, ◌≡◌, refl, sym, ◌∙◌, true, Option, none, some, ◌++◌, append-nil,
  take, drop, length, arith,
}
use qslary.Base.Int.{pos_part}
use qslary.Base.Text.{Bytes}
use qslary.Base.Memory.{store_lem, stored, length-stored, slice-stored_below}
use qslary.ByteArray.{overlaps, ByteArray, get_write_buffer, get_read_buffer}
use qslary.ByteArray.Queue.{IsQueue, contents, make_space-Fits}
use qslary.ByteArray.Reads.{get_read_buffer-contents}
use qslary.Stream.{result, placed}
use qslary.Stream.FixSize.{Carries}
use qslary.Socket.{Socket, System, Fd, recv, send}
use qslary.SockStream.{
  SockStream, is_connected, read, write, read_from, write_to, read_array, write_array, sock_stream,
}

-- A kernel whose connection carries bytes: it hands over the incoming ones in order, at most as many
-- as asked for, and lets the outgoing ones out in order.
pub record CarriesBytes {W : Type 0} (k : System W) : Type 0 where
  pub incoming : W → Bytes
  pub outgoing : W → Bytes
  pub recv_le : (fd : Fd) (n : ℕ) (w : W) → length (placed (k.sys_recv fd n w).0) ≤ n
  pub recv_front :
      (fd : Fd) (n : ℕ) (w : W)
      → incoming w ≡ placed (k.sys_recv fd n w).0 ++ incoming (k.sys_recv fd n w).1
  pub send_end :
      (fd : Fd) (bs : Bytes) (w : W)
      → outgoing (k.sys_send fd bs w).1 ≡ outgoing w ++ take (pos_part (k.sys_send fd bs w).0) bs

module _ {W : Type 0} (k : System W) (c : CarriesBytes k) where
  read_from-le : (o : Option Socket) (n : ℕ) (w : W) → length (placed (read_from k o n w).0) ≤ n
  unfolding read recv
  read_from-le none n w = omega arith
  read_from-le (some s) n w = ground (arith, c.recv_le s.socketfd n w)

  read_from-front :
      (o : Option Socket) (n : ℕ) (w : W)
      → c.incoming w ≡ placed (read_from k o n w).0 ++ c.incoming (read_from k o n w).1
  unfolding read recv
  read_from-front none n w = refl
  read_from-front (some s) n w = ground (arith, c.recv_front s.socketfd n w)

  write_to-end :
      (o : Option Socket) (bs : Bytes) (w : W)
      → c.outgoing (write_to k o bs w).1 ≡ c.outgoing w ++ take (pos_part (write_to k o bs w).0) bs
  unfolding write send
  write_to-end none bs w = sym (append-nil (c.outgoing w))
  write_to-end (some s) bs w = ground (arith, c.send_end s.socketfd bs w, append-nil (c.outgoing w))

  -- The stream over such a kernel is one that the fixed-size transfers can rely on.
  pub sock_stream-Carries : Carries (sock_stream k)
  sock_stream-Carries = record {
    incoming = λ tw. c.incoming tw.1;
    outgoing = λ tw. c.outgoing tw.1;
    read_le = λ n (t, w). unfold read in read_from-le t.sock n w;
    read_front = λ n (t, w). unfold read in read_from-front t.sock n w;
    write_end = λ bs (t, w). unfold write in write_to-end t.sock bs w;
  }

  -- What `read(ByteArray)` receives cannot be read: for a well-formed array with room to grow, whose
  -- readable bytes do not both start inside the head and go on behind it, and a connected stream, the
  -- call succeeds, the stream delivers the bytes, and the array's readable contents are what they
  -- were, whatever came in.
  pub read_array-contents :
      (n : ℕ) (b : ByteArray) (tw : SockStream × W)
      → IsQueue b
      → n < 2 ^ 61
      → b.write_index + n < 2 ^ 62
      → overlaps b ≡ false
      → is_connected tw.0 ≡ true
      → (b' : ByteArray) × (read_array k n b tw
          ≡ some (result (read k n tw).0, b', (read k n tw).1))
        × IsQueue b'
        × (contents b' ≡ contents b)
  unfolding read_array get_write_buffer
  read_array-contents n b (t, w) q small near apart live =
      let (b', made, fits) = make_space-Fits n b q small near (ground arith) in
      let got = placed (read k n (t, w)).0 in
      let few : length got ≤ n = unfold read in read_from-le t.sock n w in
      let room : b'.write_index + length got ≤ length b'.buffer = omega (arith, fits.room) in
      (
        record b' { buffer = stored b'.write_index got b'.buffer },
        rw (live, made, store_lem b'.write_index got b'.buffer room),
        record {
          ordered = fits.queue.ordered;
          inside = omega (arith, fits.queue, length-stored b'.write_index got b'.buffer room);
          bounded = omega (arith, fits.queue, length-stored b'.write_index got b'.buffer room);
        },
        slice-stored_below b'.read_index b'.write_index b'.write_index got b'.buffer
              fits.queue.ordered (omega arith) fits.queue.inside
            ∙ fits.same,
      )

-- `write(ByteArray)` of a well-formed array on a connected stream hands its first n readable bytes
-- to the socket, or all if there are fewer, and takes all of them off the array, also those that the
-- socket did not accept.
pub write_array-contents :
    {W : Type 0} (k : System W) (n : ℕ) (b : ByteArray) (tw : SockStream × W)
    → IsQueue b
    → is_connected tw.0 ≡ true
    → let sent = write k (take n (contents b)) tw in
      (b' : ByteArray) × (write_array k n b tw ≡ some (sent.0, b', sent.1))
      × IsQueue b'
      × (contents b' ≡ drop n (contents b))
unfolding write_array
write_array-contents k n b (t, w) q live =
    let (loaded, q', rest) = get_read_buffer-contents n b q in
    ((get_read_buffer n b).1, rw (live, loaded), q', rest)
