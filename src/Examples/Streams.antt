-- ===== src/Examples/Streams.antt =====
-- Sockets and streams at work.
use qslary.Base.{◌≡◌, refl, ◌⊎◌, true, false, some, [], ◌∷◌, ◌++◌, take, length, arith}
use qslary.Base.Int.{negsuc}
use qslary.Base.Text.{codes}
use qslary.ByteArray.{ByteArray}
use qslary.ByteArray.Queue.{IsQueue, contents}
use qslary.Stream.{failed, result, Done, read_fix_size, write_fix_size}
use qslary.Stream.FixSize.{Complete, CutShort, read_fix_size-ReadEnds, write_fix_size-WriteEnds}
use qslary.Socket.{Address, Socket, is_valid, close, connect, recv, send}
use qslary.Socket.Lifecycle.{IsSound, close_final}
use qslary.SockStream
use qslary.SockStream.{SockStream, read, write, read_array, write_array}
use qslary.SockStream.Transfers.{read_array-contents, write_array-contents}
use qslary.Examples.Wire.{
  Line, wire, wire-CarriesBytes, some_address, connected_socket, connected, stream, stream-Carries,
  line,
}
use qslary.Examples.Arrays.{three, three-IsQueue}

read_fix_size-ReadEnds_example :
    (d : Done (SockStream × Line)) × (read_fix_size stream 5 (connected, line) ≡ some d)
    × (Complete 5 d ⊎ CutShort 5 d)
    × (stream-Carries.incoming (connected, line) ≡ d.bytes ++ stream-Carries.incoming d.stream)
read_fix_size-ReadEnds_example =
    read_fix_size-ReadEnds stream stream-Carries 5 (connected, line) (omega arith)

write_fix_size-WriteEnds_example :
    (d : Done (SockStream × Line)) × (write_fix_size stream (codes "hello") (connected, line)
      ≡ some d)
    × (Complete (length (codes "hello")) d ⊎ CutShort (length (codes "hello")) d)
    × (d.bytes ≡ take (length d.bytes) (codes "hello"))
    × (stream-Carries.outgoing d.stream ≡ stream-Carries.outgoing (connected, line) ++ d.bytes)
write_fix_size-WriteEnds_example =
    write_fix_size-WriteEnds stream stream-Carries (codes "hello") (connected, line)

connected-IsSound : IsSound connected_socket
unfolding is_valid
connected-IsSound = record { connected_valid = refl }

close_final_example :
    let c = close wire connected_socket line in
    (is_valid c.0 ≡ false)
    × (c.0.is_connected ≡ false)
    × (close wire c.0 c.1 ≡ c)
    × (recv wire 4 c.0 c.1 ≡ (failed 0, c.1))
    × (send wire (codes "x") c.0 c.1 ≡ (negsuc 0, c.1))
close_final_example = close_final wire connected_socket line 4 (codes "x")

-- What connecting and binding make of the socket.
abbrev peered : Socket
peered = record connected_socket {
  remote_address = some some_address;
  local_address = some some_address;
}

connects : connect wire some_address connected_socket line ≡ some (true, peered, line)
unfolding connect
connects = refl

abbrev nowhere : Address
nowhere = record { family = 2; raw = [] }

read_array-contents_example :
    (b' : ByteArray) × (read_array wire 2 three (connected, line)
      ≡ some (result (read wire 2 (connected, line)).0, b', (read wire 2 (connected, line)).1))
    × IsQueue b'
    × (contents b' ≡ 8 ∷ 9 ∷ [])
unfolding SockStream.is_connected
read_array-contents_example =
    read_array-contents wire wire-CarriesBytes 2 three (connected, line) three-IsQueue (omega arith)
      (omega arith) refl refl

write_array-contents_example :
    let sent = write wire (8 ∷ []) (connected, line) in
    (b' : ByteArray) × (write_array wire 1 three (connected, line) ≡ some (sent.0, b', sent.1))
    × IsQueue b'
    × (contents b' ≡ 9 ∷ [])
unfolding SockStream.is_connected
write_array-contents_example =
    write_array-contents wire 1 three (connected, line) three-IsQueue refl
