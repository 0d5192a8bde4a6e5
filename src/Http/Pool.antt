-- ===== src/Http/Pool.antt =====
-- `HttpConnectionPool` of http/HttpConnection.cc: the list of idle connections and their number.
-- Resolving a host and setting an address's port are parameters, as the kernel is.
pub mod Accounting
use qslary.Base.{
  ℕ, ◌+◌, ◌-◌, ◌%◌, suc, Bool, true, false, not, ◌||◌, Option, none, some, List, [], ◌∷◌, ◌++◌,
  ◌==◌, ltb, leb, if◌then◌else◌, length,
}
use qslary.Base.Int.{u32_mod, u64_mod}
use qslary.Base.Text.{Bytes}
use qslary.Base.Fault.{◌>>=◌}
use qslary.Socket
use qslary.Socket.{Address, Socket, System}
use qslary.SockStream
use qslary.SockStream.{SockStream}

-- Nothing sets `create_time` but its initialiser.
pub record HttpConnection : Type 0 where
  pub stream : SockStream
  pub create_time : ℕ

-- `total_` is a pattern of 32 bits.
pub record HttpConnectionPool : Type 0 where
  pub host : Bytes
  pub vhost : Bytes
  pub port : ℕ
  pub max_size : ℕ
  pub max_alive_time : ℕ
  pub max_request : ℕ
  pub conns : List HttpConnection
  pub total : ℕ

unfoldable pub create : Bytes → Bytes → ℕ → Bool → ℕ → ℕ → ℕ → HttpConnectionPool
create host vhost port is_https max_size max_alive_time max_request = record {
  host = host;
  vhost = vhost;
  port = if port == 0 then (if is_https then 443 else 80) else port;
  max_size = max_size;
  max_alive_time = max_alive_time;
  max_request = max_request;
  conns = [];
  total = 0;
}

-- What `getConnection` throws away.
unfoldable pub is_invalid : ℕ → ℕ → HttpConnection → Bool
unfolding SockStream.is_connected
is_invalid max_alive_time now c =
    not (SockStream.is_connected c.stream) || ltb now ((c.create_time + max_alive_time) % u64_mod)

-- The `while` loop: the connections to delete, the one that was found, and those that stay.
pub record Taken : Type 0 where
  pub invalid : List HttpConnection
  pub found : Option HttpConnection
  pub rest : List HttpConnection

unfoldable pub take_connection : ℕ → ℕ → List HttpConnection → Taken
unfolding is_invalid
take_connection max_alive_time now [] = record { invalid = []; found = none; rest = [] }
take_connection max_alive_time now (c ∷ conns) =
    let later = take_connection max_alive_time now conns in
    if is_invalid max_alive_time now c
    then record later { invalid = c ∷ later.invalid }
    else record { invalid = []; found = some c; rest = conns }

module _ {W : Type 0} (k : System W) where
  -- `delete` of a connection.
  unfoldable pub delete : HttpConnection → W → W
  delete c w = (SockStream.destroy k (c.stream, w)).1

  unfoldable pub delete_all : List HttpConnection → W → W
  unfolding delete
  delete_all [] w = w
  delete_all (c ∷ conns) w = delete_all conns (delete c w)

  module _ (resolve : Bytes → W → List (Option Address) × W)
      (set_port : ℕ → Address → Address) where
    -- A new connection to the host. `addrs[0]` of an empty list is a fault.
    open_connection :
        HttpConnectionPool → W → Option (Option HttpConnection × HttpConnectionPool × W)
    open_connection pool w =
        let addrs = resolve pool.host w in
        elim addrs.0 [
          | [] ↦ none
          | none ∷ rest ↦ some (none, pool, addrs.1)
          | some addr ∷ rest ↦ do
            let addr' = set_port pool.port addr
            (ok, sock, w') ← Socket.connect k addr' (Socket.create_tcp_socket addr') addrs.1
            some (
                if ok
                then (
                  some (record {
                    stream = record { sock = some sock; ower = true };
                    create_time = 0;
                  }),
                  record pool { total = (pool.total + 1) % u32_mod },
                  w',
                )
                else (none, pool, w'))
        ]

    -- `HttpConnectionPool::getConnection` at the time `now`.
    unfoldable pub get_connection :
        ℕ → HttpConnectionPool → W → Option (Option HttpConnection × HttpConnectionPool × W)
    unfolding take_connection delete_all open_connection
    get_connection now pool w =
        let taken = take_connection pool.max_alive_time now pool.conns in
        let w' = delete_all taken.invalid w in
        let pool' : HttpConnectionPool = record pool {
          conns = taken.rest;
          total = (pool.total + u32_mod - length taken.invalid) % u32_mod;
        } in
        elim taken.found [ some c ↦ some (some c, pool', w') | none ↦ open_connection pool' w' ]

  -- `HttpConnectionPool::ReleasePtr` at the time `now`.
  unfoldable pub release : ℕ → HttpConnection → HttpConnectionPool → W → HttpConnectionPool × W
  unfolding delete
  release now c pool w =
      if not (SockStream.is_connected c.stream)
        || leb now ((c.create_time + pool.max_alive_time) % u64_mod)
      then (record pool { total = (pool.total + u32_mod - 1) % u32_mod }, delete c w)
      else (record pool { conns = pool.conns ++ (c ∷ []) }, w)
