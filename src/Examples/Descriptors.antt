-- ===== src/Examples/Descriptors.antt =====
-- Contexts of descriptors; every descriptor is a socket, and the world counts the calls that write.
use qslary.Base.{
  ℕ, ◌+◌, ◌≤◌, ◌≡◌, ◌≢◌, ◌⊎◌, Bool, true, Option, some, none, length, length-replicate, arith,
}
use qslary.Base.Int.{pos}
use qslary.FdManager.{
  Calls, FdContext, FdContextManager, create_manager, get_fd_context, del_fd_context,
}
use qslary.FdManager.Table.{slot, get_fd_context-right, del_fd_context-right}

abbrev calls : Calls ℕ
calls = record {
  fstat = λ fd w. (some true, w);
  fcntl_getfl = λ fd w. (2, w);
  fcntl_setfl = λ fd flags w. w + 1;
}

has_room : 64 ≤ length create_manager.fds
unfolding create_manager
has_room = let null : Option FdContext = none in omega (arith, length-replicate 64 null)

-- A descriptor for which the table grows.
get_fd_context-right_example :
    (c : FdContext) × (m' : FdContextManager) × (w' : ℕ) × (get_fd_context calls
        (pos 100)
        true
        create_manager
        0
      ≡ some (some c, m', w'))
    × (64 ≤ length m'.fds)
    × ((auto_creat : Bool) (w'' : ℕ)
        → get_fd_context calls (pos 100) auto_creat m' w'' ≡ some (some c, m', w''))
    × ((j : ℕ) → j ≢ 100 → slot j m'.fds ≡ slot j create_manager.fds)
get_fd_context-right_example = get_fd_context-right calls 100 create_manager 0 has_room

del_fd_context-right_example :
    ((64 ≡ length create_manager.fds) × (del_fd_context (pos 64) create_manager ≡ none))
    ⊎ ((m' : FdContextManager) × (del_fd_context (pos 64) create_manager ≡ some m')
        × (slot 64 m'.fds ≡ none)
        × ((j : ℕ) → j ≢ 64 → slot j m'.fds ≡ slot j create_manager.fds))
del_fd_context-right_example = del_fd_context-right 64 create_manager
