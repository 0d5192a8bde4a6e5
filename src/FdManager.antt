-- ===== src/FdManager.antt =====
-- net/FdManager.h and net/FdManager.cc: what is kept for each descriptor. A context is shared by those
-- who got it from the manager, so a write to it is a write to the manager's entry. An access out of
-- bounds is `none`.
pub mod Table
use Prim.Native.Nat.{bit_and, bit_or}
use qslary.Base.{
  ℕ, zero, suc, ◌+◌, ◌-◌, ◌*◌, ◌/◌, ◌^◌, Bool, true, false, not, ◌||◌, Option, none, some, List, [],
  ◌++◌, ◌==◌, ltb, leb, if◌then◌else◌, length, get_elem?, set, replicate,
}
use qslary.Base.Int.{ℤ, pos, negsuc, u64_mod}

-- The system's calls on a world W: whether a descriptor is a socket, if it is open; its flags, and the
-- writing of them.
pub record Calls (W : Type 0) : Type 0 where
  pub fstat : ℕ → W → Option Bool × W
  pub fcntl_getfl : ℕ → W → ℕ × W
  pub fcntl_setfl : ℕ → ℕ → W → W

abbrev pub o_nonblock : ℕ
o_nonblock = 2048

-- -1 of a `uint64_t`
abbrev pub no_timeout : ℕ
no_timeout = u64_mod - 1

pub record FdContext : Type 0 where
  pub is_init : Bool
  pub is_socket : Bool
  pub sys_nonblock : Bool
  pub user_nonblock : Bool
  pub is_closed : Bool
  pub fd : ℕ
  pub recv_timeout : ℕ
  pub send_timeout : ℕ

abbrev pub of_stat : ℕ → Option Bool → FdContext
of_stat fd stat = record {
  is_init = elim stat [ none ↦ false | some is_socket ↦ true ];
  is_socket = elim stat [ none ↦ false | some is_socket ↦ is_socket ];
  sys_nonblock = elim stat [ none ↦ false | some is_socket ↦ is_socket ];
  user_nonblock = false;
  is_closed = false;
  fd = fd;
  recv_timeout = no_timeout;
  send_timeout = no_timeout;
}

-- The constructor with its `init`: a socket is made non-blocking.
unfoldable pub create : {W : Type 0} → Calls W → ℕ → W → FdContext × W
create k fd w =
    let (stat, w') = k.fstat fd w in
    let context = of_stat fd stat in
    let (flags, w'') = k.fcntl_getfl fd w' in
    (
      context,
      (if context.is_socket
          then (if bit_and flags o_nonblock == 0
              then k.fcntl_setfl fd (bit_or flags o_nonblock) w''
              else w'')
          else w'),
    )

-- For SO_RCVTIMEO, or any other type.
pub set_timeout : Bool → ℕ → FdContext → FdContext
set_timeout receives v c =
    if receives then record c { recv_timeout = v } else record c { send_timeout = v }

pub get_timeout : Bool → FdContext → ℕ
get_timeout receives c = if receives then c.recv_timeout else c.send_timeout

pub record FdContextManager : Type 0 where
  pub fds : List (Option FdContext)

unfoldable pub create_manager : FdContextManager
create_manager = record { fds = replicate 64 none }

-- `resize` to no smaller a size.
unfoldable pub resize : ℕ → List (Option FdContext) → List (Option FdContext)
resize n fds = fds ++ replicate (n - length fds) none

unfoldable pub store : ℕ → FdContext → List (Option FdContext) → Option FdContextManager
store fd c fds = if ltb fd (length fds) then some (record { fds = set fds fd (some c) }) else none

-- The second half of `getFdContext`. The context is made before it is stored; nothing else touches the
-- world.
unfoldable pub add_context :
    {W : Type 0}
    → Calls W
    → ℕ
    → FdContextManager
    → W
    → Option (Option FdContext × FdContextManager × W)
unfolding resize create store
add_context k fd m w =
    let fds = if leb (length m.fds) fd then resize (fd * 3 / 2) m.fds else m.fds in
    let (c, w') = create k fd w in
    elim (store fd c fds) [ none ↦ none | some m' ↦ some (some c, m', w') ]

-- The entry of a descriptor, or the null pointer; with `auto_creat` a missing one is made.
pub get_fd_context :
    {W : Type 0}
    → Calls W
    → ℤ
    → Bool
    → FdContextManager
    → W
    → Option (Option FdContext × FdContextManager × W)
unfolding add_context
get_fd_context k (negsuc zero) auto_creat m w = some (none, m, w)
get_fd_context k (negsuc (suc n)) auto_creat m w = if auto_creat then none else some (none, m, w)
get_fd_context k (pos fd) auto_creat m w = elim (get_elem? m.fds fd) [
  | none ↦ if auto_creat then add_context k fd m w else some (none, m, w)
  | some slot ↦ elim slot [
    | none ↦ if auto_creat then add_context k fd m w else some (none, m, w)
    | some c ↦ some (some c, m, w)
  ]
]

-- A negative descriptor is a huge index.
pub del_fd_context : ℤ → FdContextManager → Option FdContextManager
del_fd_context (negsuc n) m = some m
del_fd_context (pos fd) m =
    if ltb (length m.fds) fd
    then some m
    else if fd == length m.fds
    then none
    else some (record m { fds = set m.fds fd none })
