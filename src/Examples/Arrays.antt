-- ===== src/Examples/Arrays.antt =====
-- Byte arrays at work.
use qslary.Base.{◌≡◌, refl, some, [], ◌∷◌, arith}
use qslary.Base.Int.{negsuc}
use qslary.Base.Fault.{◌>>=◌}
use qslary.ByteArray.{writeable_size, ByteArray, make_space, write, read, write_int, read_int}
use qslary.ByteArray.Queue.{IsQueue, Fits, contents, make_space-Fits, write-contents}
use qslary.ByteArray.Reads.{read-contents}
use qslary.ByteArray.Values.{read_int-write_int}
use qslary.ByteArray.Zigzag.{decode_zigzag, decode_zigzag-encode_zigzag, encode_zigzag}

-- Three of five bytes were written, one of them was read.
abbrev pub three : ByteArray
three = record { buffer = 7 ∷ 8 ∷ 9 ∷ 0 ∷ 0 ∷ []; read_index = 1; write_index = 3 }

abbrev pub three-IsQueue : IsQueue three
three-IsQueue = record { ordered = omega arith; inside = omega arith; bounded = omega arith }

abbrev drained : ByteArray
drained = record { buffer = 7 ∷ 8 ∷ []; read_index = 2; write_index = 2 }

abbrev drained-IsQueue : IsQueue drained
drained-IsQueue = record { ordered = omega arith; inside = omega arith; bounded = omega arith }

make_space-Fits_example : (b' : ByteArray) × (make_space 4 three ≡ some b') × Fits 4 three b'
unfolding writeable_size
make_space-Fits_example = make_space-Fits 4 three three-IsQueue (omega arith) (omega arith) refl

write-contents_example :
    (b' : ByteArray) × (write (1 ∷ 2 ∷ 3 ∷ []) three ≡ some (3, b'))
    × IsQueue b'
    × (contents b' ≡ 8 ∷ 9 ∷ 1 ∷ 2 ∷ 3 ∷ [])
write-contents_example =
    write-contents (1 ∷ 2 ∷ 3 ∷ []) three three-IsQueue (omega arith) (omega arith)

read-contents_example :
    (b' : ByteArray) × (read 1 three ≡ some (8 ∷ [], b')) × IsQueue b' × (contents b' ≡ 9 ∷ [])
read-contents_example = read-contents 1 three three-IsQueue

read_int-write_int_example :
    (b' : ByteArray) × ((do
      (n, written) ← write_int 4 70000 drained
      read_int (1 ∷ 1 ∷ 1 ∷ 1 ∷ []) written)
      ≡ some (70000, b'))
    × IsQueue b'
    × (contents b' ≡ [])
read_int-write_int_example =
    read_int-write_int 4 70000 (1 ∷ 1 ∷ 1 ∷ 1 ∷ []) drained drained-IsQueue refl (omega arith)
      (omega arith) refl (omega arith)

coded : encode_zigzag 31 (negsuc 6) ≡ some 13
unfolding encode_zigzag
coded = refl

decode_zigzag-encode_zigzag_example : decode_zigzag 31 13 ≡ negsuc 6
decode_zigzag-encode_zigzag_example = decode_zigzag-encode_zigzag 31 13 (negsuc 6) coded
