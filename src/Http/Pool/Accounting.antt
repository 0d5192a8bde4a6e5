-- ===== src/Http/Pool/Accounting.antt =====
-- The number of connections, and which ones are handed out.
use qslary.Base.{
  ℕ, ◌+◌, ◌-◌, ◌%◌, ◌<◌, ◌^◌, ◌≡◌, refl, Bool, true, false, ◌&&◌, Option, none, some, List, [], ◌∷◌,
  ◌++◌, length, arith,
}
use qslary.Base.Int.{u32_mod}
use qslary.Base.Text.{Bytes}
use qslary.Socket.{Address, System}
use qslary.Http.Pool.{
  HttpConnection, HttpConnectionPool, is_invalid, take_connection, delete_all, get_connection,
  open_connection,
}

-- What is thrown away is invalid, what is found is not, and the others stay as they were.
take_connection_split :
    (max_alive_time now : ℕ) (conns : List HttpConnection)
    → let t = take_connection max_alive_time now conns in
      conns ≡ t.invalid ++ ((elim t.found [ none ↦ [] | some c ↦ c ∷ [] ]) ++ t.rest)
unfolding take_connection
take_connection_split max_alive_time now [] = refl
take_connection_split max_alive_time now (c ∷ conns) =
    ground (arith, take_connection_split max_alive_time now conns)

abbrev pub all_invalid : ℕ → ℕ → List HttpConnection → Bool
all_invalid max_alive_time now [] = true
all_invalid max_alive_time now (c ∷ conns) =
    is_invalid max_alive_time now c && all_invalid max_alive_time now conns

take_connection-invalid :
    (max_alive_time now : ℕ) (conns : List HttpConnection)
    → all_invalid max_alive_time now (take_connection max_alive_time now conns).invalid ≡ true
unfolding take_connection
take_connection-invalid max_alive_time now [] = refl
take_connection-invalid max_alive_time now (c ∷ conns) =
    ground (arith, take_connection-invalid max_alive_time now conns)

take_connection-found :
    (max_alive_time now : ℕ) (conns : List HttpConnection)
    → (elim (take_connection max_alive_time now conns).found [
      | none ↦ false
      | some c ↦ is_invalid max_alive_time now c
    ])
      ≡ false
unfolding take_connection
take_connection-found max_alive_time now [] = refl
take_connection-found max_alive_time now (c ∷ conns) =
    ground (arith, take_connection-found max_alive_time now conns)

-- The loop over the idle connections splits them in their order: those before the first valid one
-- are thrown away and all are invalid, the first valid one is found, and those behind it stay.
pub take_connection-splits :
    (max_alive_time now : ℕ) (conns : List HttpConnection)
    → let t = take_connection max_alive_time now conns in
      (conns ≡ t.invalid ++ ((elim t.found [ none ↦ [] | some c ↦ c ∷ [] ]) ++ t.rest))
      × (all_invalid max_alive_time now t.invalid ≡ true)
      × ((elim t.found [ none ↦ false | some c ↦ is_invalid max_alive_time now c ]) ≡ false)
take_connection-splits max_alive_time now conns = (
  take_connection_split max_alive_time now conns,
  take_connection-invalid max_alive_time now conns,
  take_connection-found max_alive_time now conns,
)

taken_length :
    (max_alive_time now : ℕ) (conns : List HttpConnection)
    → let t = take_connection max_alive_time now conns in
      length conns ≡ length t.invalid + ((elim t.found [ none ↦ 0 | some c ↦ 1 ]) + length t.rest)
unfolding take_connection
taken_length max_alive_time now [] = refl
taken_length max_alive_time now (c ∷ conns) = ground (arith, taken_length max_alive_time now conns)

-- `out` connections are handed out: the others of `total_` are idle. The count is far from a wrap.
pub record IsCounted (out : ℕ) (pool : HttpConnectionPool) : Type 0 where
  pub counted : pool.total ≡ length pool.conns + out
  pub small : pool.total < 2 ^ 31

module _ {W : Type 0} (k : System W) where
  module _ (resolve : Bytes → W → List (Option Address) × W)
      (set_port : ℕ → Address → Address) where
    open_connection_count :
        (pool pool' : HttpConnectionPool) (w w' : W) (o : Option HttpConnection)
        → pool.total < 2 ^ 31
        → open_connection k resolve set_port pool w ≡ some (o, pool', w')
        → (pool'.conns ≡ pool.conns)
          × (pool'.total ≡ pool.total + (elim o [ none ↦ 0 | some c ↦ 1 ]))
    unfolding open_connection
    open_connection_count pool pool' w w' o small got = ground arith

    -- Whatever `getConnection` returns, a pooled connection, a new one or none, the count of the
    -- pool afterwards is that of the idle connections and those handed out, now with the new one.
    pub get_connection-IsCounted :
        (out now : ℕ) (pool pool' : HttpConnectionPool) (w w' : W) (o : Option HttpConnection)
        → IsCounted out pool
        → get_connection k resolve set_port now pool w ≡ some (o, pool', w')
        → pool'.total ≡ length pool'.conns + (out + (elim o [ none ↦ 0 | some c ↦ 1 ]))
    unfolding get_connection
    get_connection-IsCounted out now pool pool' w w' o h got =
        let taken = take_connection pool.max_alive_time now pool.conns in
        let cut : HttpConnectionPool = record pool {
          conns = taken.rest;
          total = (pool.total + u32_mod - length taken.invalid) % u32_mod;
        } in
        ground (
          arith,
          h.counted,
          h.small,
          taken_length pool.max_alive_time now pool.conns,
          open_connection_count cut pool' (delete_all k taken.invalid w) w' o,
        )
