-- ===== src/Http/Wire.antt =====
-- What requests and responses share on the wire: the lines of `dump` in http/Http.cc, and where the
-- head of a message ends for a reader.
use Prim.Native.Nat.{bit_and}
use qslary.Base.{
  ℕ, zero, suc, ◌+◌, ◌/◌, ◌%◌, ◌≡◌, ◌≢◌, refl, Bool, true, false, not, ◌&&◌, [], ◌∷◌, ◌++◌,
  if◌then◌else◌, ◌==◌, drop, and_left, and_right, append_assoc, ap, Bool-cases, inl, inr, arith,
}
use qslary.Base.Text.{Bytes, codes, bytes_eq, starts_with}
use qslary.Base.Decimal.{decimal, digits_of}
use qslary.Http.Headers.{HttpMap}

abbrev pub crlf : Bytes
crlf = 13 ∷ 10 ∷ []

-- The header lines, all but `connection` in lower case.
unfoldable pub dump_headers : HttpMap → Bytes
dump_headers [] = []
dump_headers ((key, value) ∷ m) =
    let rest = dump_headers m in
    if bytes_eq key (codes "connection")
    then rest
    else key ++ (codes ": " ++ (value ++ (crlf ++ rest)))

-- `version >> 4` and `version & 0x0F`.
unfoldable pub dump_version : ℕ → Bytes
dump_version version =
    codes "HTTP/" ++ (decimal (version / 16) ++ (codes "." ++ decimal (bit_and version 15)))

-- No carriage return.
abbrev pub no_cr : Bytes → Bool
no_cr [] = true
no_cr (c ∷ cs) = not (c == 13) && no_cr cs

abbrev pub entries_no_cr : HttpMap → Bool
entries_no_cr [] = true
entries_no_cr ((key, value) ∷ m) = no_cr key && (no_cr value && entries_no_cr m)

-- What a reader finds behind the first empty line of a message.
unfoldable pub after_blank_line : Bytes → Bytes
after_blank_line [] = []
after_blank_line (c ∷ cs) =
    let later = after_blank_line cs in
    if starts_with (crlf ++ crlf) (c ∷ cs) then drop 3 cs else later

pub no_cr-append : (xs ys : Bytes) → no_cr xs ≡ true → no_cr ys ≡ true → no_cr (xs ++ ys) ≡ true
no_cr-append [] ys h k = k
no_cr-append (x ∷ xs) ys h k = ground (arith, no_cr-append xs ys)

digits_no_cr : (fuel n : ℕ) → no_cr (digits_of fuel n) ≡ true
unfolding digits_of
digits_no_cr zero n = refl
digits_no_cr (suc fuel) n =
    ground (
      arith,
      digits_no_cr fuel (n / 10),
      no_cr-append (digits_of fuel (n / 10)) ((48 + n % 10) ∷ []),
    )

pub decimal-no_cr : (n : ℕ) → no_cr (decimal n) ≡ true
unfolding decimal
decimal-no_cr n = digits_no_cr (suc n) n

pub dump_version-no_cr : (v : ℕ) → no_cr (dump_version v) ≡ true
unfolding dump_version
dump_version-no_cr v =
    no_cr-append (decimal (v / 16)) (codes "." ++ decimal (bit_and v 15)) (decimal-no_cr (v / 16))
      (decimal-no_cr (bit_and v 15))

-- A reader passes over text without carriage returns.
pub after_blank_line-skip :
    (xs rest : Bytes) → no_cr xs ≡ true → after_blank_line (xs ++ rest) ≡ after_blank_line rest
unfolding after_blank_line starts_with
after_blank_line-skip [] rest h = refl
after_blank_line-skip (x ∷ xs) rest h = ground (arith, after_blank_line-skip xs rest)

-- And over the end of a line, unless the next line is empty.
pub after_blank_line-crlf :
    (rest : Bytes)
    → after_blank_line (crlf ++ rest)
      ≡ (if starts_with crlf rest then drop 2 rest else after_blank_line rest)
unfolding after_blank_line starts_with
after_blank_line-crlf rest = refl

pub starts_line :
    (xs : Bytes) (c : ℕ) (rest : Bytes)
    → no_cr xs ≡ true
    → c ≢ 13
    → starts_with crlf (xs ++ (c ∷ rest)) ≡ false
unfolding starts_with
starts_line [] c rest h k = ground arith
starts_line (x ∷ xs) c rest h k = ground arith

dump_headers_line :
    (key value rest tail : Bytes)
    → (key ++ (codes ": " ++ (value ++ (crlf ++ rest)))) ++ tail
      ≡ key ++ (codes ": " ++ (value ++ (crlf ++ (rest ++ tail))))
dump_headers_line key value rest tail =
    rw (append_assoc key (codes ": " ++ (value ++ (crlf ++ rest))) tail)
      (ap (λ xs. key ++ (codes ": " ++ xs)) (append_assoc value (crlf ++ rest) tail))

entries_rest :
    (key value : Bytes) (m : HttpMap)
    → entries_no_cr ((key, value) ∷ m) ≡ true
    → entries_no_cr m ≡ true
entries_rest key value m h = and_right (no_cr value) _ (and_right (no_cr key) _ h)

-- The header lines start no empty line, and a reader passes over them.
pub starts_headers :
    (m : HttpMap) (c : ℕ) (tail : Bytes)
    → entries_no_cr m ≡ true
    → c ≢ 13
    → starts_with crlf (dump_headers m ++ (c ∷ tail)) ≡ false
unfolding dump_headers
starts_headers [] c tail h k = starts_line [] c tail refl k
starts_headers ((key, value) ∷ m) c tail h k =
    elim (Bool-cases (bytes_eq key (codes "connection"))) [
      | inl skipped ↦ rw skipped (starts_headers m c tail (entries_rest key value m h) k)
      | inr shown ↦
          rw (shown, dump_headers_line key value (dump_headers m) (c ∷ tail))
            (starts_line key 58 _ (and_left (no_cr key) _ h) (λ e. omega arith))
    ]

pub after_blank_line-headers :
    (m : HttpMap) (c : ℕ) (tail : Bytes)
    → entries_no_cr m ≡ true
    → c ≢ 13
    → after_blank_line (dump_headers m ++ (c ∷ tail)) ≡ after_blank_line (c ∷ tail)
unfolding dump_headers
after_blank_line-headers [] c tail h k = refl
after_blank_line-headers ((key, value) ∷ m) c tail h k =
    let rest = entries_rest key value m h in
    elim (Bool-cases (bytes_eq key (codes "connection"))) [
      | inl skipped ↦ rw skipped (after_blank_line-headers m c tail rest k)
      | inr shown ↦
          rw
            (
              shown,
              dump_headers_line key value (dump_headers m) (c ∷ tail),
              after_blank_line-skip key
                  (codes ": " ++ (value ++ (crlf ++ (dump_headers m ++ (c ∷ tail)))))
                  (and_left (no_cr key) _ h),
              after_blank_line-skip (codes ": ") (value ++ (crlf ++ (dump_headers m ++ (c ∷ tail))))
                  refl,
              after_blank_line-skip value (crlf ++ (dump_headers m ++ (c ∷ tail)))
                  (and_left (no_cr value) _ (and_right (no_cr key) _ h)),
              after_blank_line-crlf (dump_headers m ++ (c ∷ tail)),
              starts_headers m c tail rest k,
            )
            (after_blank_line-headers m c tail rest k)
    ]
