-- ===== src/Examples/Clients.antt =====
-- Clients and their pool at work.
use qslary.Base.{◌+◌, ◌≡◌, refl, true, Option, none, some, List, [], ◌∷◌, arith}
use qslary.Base.Text.{Bytes, codes}
use qslary.Socket.{Address}
use qslary.SockStream
use qslary.SockStream.{SockStream}
use qslary.Http.Pool.{
  HttpConnection, HttpConnectionPool, is_invalid, take_connection, get_connection, delete,
  delete_all,
}
use qslary.Http.Pool.Accounting.{IsCounted, get_connection-IsCounted}
use qslary.Examples.Wire.{Line, wire, line, connected, some_address}

abbrev given : List (Bytes × Bytes)
given = (codes "Accept", codes "*") ∷ (codes "Connection", codes "keep-alive") ∷ []

abbrev dead : HttpConnection
dead = record { stream = record { sock = none; ower = true }; create_time = 0 }

abbrev alive : HttpConnection
alive = record { stream = connected; create_time = 0 }

abbrev pool : HttpConnectionPool
pool = record {
  host = codes "a.b";
  vhost = [];
  port = 80;
  max_size = 10;
  max_alive_time = 1000;
  max_request = 10;
  conns = dead ∷ alive ∷ [];
  total = 3;
}

abbrev after : HttpConnectionPool
after = record pool { conns = []; total = 2 }

abbrev resolve : Bytes → Line → List (Option Address) × Line
resolve host w = (some some_address ∷ [], w)

pool-IsCounted : IsCounted 1 pool
pool-IsCounted = record { counted = refl; small = omega arith }

gets : get_connection wire resolve (λ port a. a) 5000 pool line ≡ some (some alive, after, line)
unfolding get_connection take_connection is_invalid SockStream.is_connected delete delete_all
    SockStream.destroy SockStream.close
gets = refl

get_connection-IsCounted_example : 2 ≡ 0 + (1 + 1)
get_connection-IsCounted_example =
    get_connection-IsCounted wire resolve (λ port a. a) 1 5000 pool after line line (some alive)
      pool-IsCounted gets
