-- ===== src/FdManager/Table.antt =====
-- The manager is a table of contexts.
use qslary.Base.{
  ℕ, zero, suc, ◌-◌, ◌*◌, ◌/◌, ◌≤◌, ◌<◌, ◌≡◌, ◌≢◌, ◌⊎◌, inl, inr, refl, Bool, true, Option, none,
  some, List, [], ◌∷◌, ◌++◌, ◌==◌, ltb, leb, if◌then◌else◌, length, get_elem?, set, replicate,
  length-append, length-replicate, length-set, Option-cases, Bool-cases, arith,
}
use qslary.Base.Int.{pos}
use qslary.FdManager.{
  Calls, FdContext, FdContextManager, create, resize, store, add_context, get_fd_context,
  del_fd_context,
}

-- The context of a descriptor, or the null pointer.
abbrev pub slot : ℕ → List (Option FdContext) → Option FdContext
slot fd [] = none
slot zero (c ∷ fds) = c
slot (suc fd) (c ∷ fds) = slot fd fds

slot-replicate : (j n : ℕ) → slot j (replicate n none) ≡ none
slot-replicate j zero = refl
slot-replicate zero (suc n) = refl
slot-replicate (suc j) (suc n) = slot-replicate j n

slot-append :
    (j n : ℕ) (fds : List (Option FdContext)) → slot j (fds ++ replicate n none) ≡ slot j fds
slot-append j n [] = slot-replicate j n
slot-append zero n (c ∷ fds) = refl
slot-append (suc j) n (c ∷ fds) = slot-append j n fds

slot-set :
    (j fd : ℕ) (c : Option FdContext) (fds : List (Option FdContext))
    → slot j (set fds fd c)
      ≡ (if j == fd then (if ltb fd (length fds) then c else none) else slot j fds)
slot-set j fd c [] = ground arith
slot-set zero zero c (d ∷ fds) = ground arith
slot-set zero (suc fd) c (d ∷ fds) = ground arith
slot-set (suc j) zero c (d ∷ fds) = ground arith
slot-set (suc j) (suc fd) c (d ∷ fds) = ground (arith, slot-set j fd c fds)

slot-outside : (j : ℕ) (fds : List (Option FdContext)) → length fds ≤ j → slot j fds ≡ none
slot-outside j [] h = refl
slot-outside zero (c ∷ fds) h = absurd (omega arith)
slot-outside (suc j) (c ∷ fds) h = slot-outside j fds (omega arith)

-- What the vector gives at an index.
get_elem?-slot :
    (fd : ℕ) (fds : List (Option FdContext))
    → get_elem? fds fd ≡ (if ltb fd (length fds) then some (slot fd fds) else none)
get_elem?-slot fd [] = ground arith
get_elem?-slot zero (c ∷ fds) = ground arith
get_elem?-slot (suc fd) (c ∷ fds) = ground (arith, get_elem?-slot fd fds)

module _ {W : Type 0} (k : Calls W) where
  -- A context that is there is given, whatever is asked.
  get_fd_context-there :
      (fd : ℕ) (auto_creat : Bool) (c : FdContext) (m : FdContextManager) (w : W)
      → fd < length m.fds
      → slot fd m.fds ≡ some c
      → get_fd_context k (pos fd) auto_creat m w ≡ some (some c, m, w)
  unfolding get_fd_context
  get_fd_context-there fd auto_creat c m w small there = ground (arith, get_elem?-slot fd m.fds)

  module _ (fd : ℕ) (m : FdContextManager) (w : W) (roomy : 64 ≤ length m.fds) where
    abbrev grown : List (Option FdContext)
    grown =
        if leb (length m.fds) fd then m.fds ++ replicate (fd * 3 / 2 - length m.fds) none else m.fds

    grown-length : (fd < length grown) × (64 ≤ length grown)
    grown-length =
        let null : Option FdContext = none in
        ground (
          arith,
          length-append m.fds (replicate (fd * 3 / 2 - length m.fds) null),
          length-replicate (fd * 3 / 2 - length m.fds) null,
        )

    slot-grown : (j : ℕ) → slot j grown ≡ slot j m.fds
    slot-grown j = ground (arith, slot-append j (fd * 3 / 2 - length m.fds) m.fds)

    abbrev stored : FdContextManager
    stored = record { fds = set grown fd (some (create k fd w).0) }

    add_context-ran :
        add_context k fd m w ≡ some (some (create k fd w).0, stored, (create k fd w).1)
    unfolding add_context resize store
    add_context-ran = ground (arith, grown-length)

    missing_made :
        slot fd m.fds ≡ none
        → get_fd_context k (pos fd) true m w
          ≡ some (some (create k fd w).0, stored, (create k fd w).1)
    unfolding get_fd_context
    missing_made gone = ground (arith, get_elem?-slot fd m.fds, add_context-ran)

  -- With `auto_creat` every descriptor gets a context, also where the table must grow for it; it is the
  -- same in every later call, and the contexts of the other descriptors are as before. This holds from
  -- the start on, since the table has room for 64.
  pub get_fd_context-right :
      (fd : ℕ) (m : FdContextManager) (w : W)
      → 64 ≤ length m.fds
      → (c : FdContext) × (m' : FdContextManager) × (w' : W) × (get_fd_context k (pos fd) true m w
          ≡ some (some c, m', w'))
        × (64 ≤ length m'.fds)
        × ((auto_creat : Bool) (w'' : W)
            → get_fd_context k (pos fd) auto_creat m' w'' ≡ some (some c, m', w''))
        × ((j : ℕ) → j ≢ fd → slot j m'.fds ≡ slot j m.fds)
  get_fd_context-right fd m w roomy = elim (Option-cases (slot fd m.fds)) [
    | inl gone ↦
        let m' = stored fd m w roomy in
        let (small, large) = grown-length fd m w roomy in
        let size : length m'.fds ≡ length (grown fd m w roomy) =
          length-set (grown fd m w roomy) fd _ in
        let here : slot fd m'.fds ≡ some (create k fd w).0 =
          ground (arith, slot-set fd fd (some (create k fd w).0) (grown fd m w roomy)) in
        (
          (create k fd w).0,
          m',
          (create k fd w).1,
          missing_made fd m w roomy gone,
          omega arith,
          (λ auto_creat w''.
              get_fd_context-there fd auto_creat (create k fd w).0 m' w'' (omega arith) here),
          (λ j other. ground (
            arith,
            slot-set j fd (some (create k fd w).0) (grown fd m w roomy),
            slot-grown fd m w roomy j,
          )),
        )
    | inr (c, here) ↦
        let small : fd < length m.fds = slot_small fd m.fds c here in
        (
          c,
          m,
          w,
          get_fd_context-there fd true c m w small here,
          roomy,
          (λ auto_creat w''. get_fd_context-there fd auto_creat c m w'' small here),
          (λ j other. refl),
        )
  ]
    where
      slot_small :
          (i : ℕ) (fds : List (Option FdContext)) (d : FdContext)
          → slot i fds ≡ some d
          → i < length fds
      slot_small i [] d e = absurd (ground arith)
      slot_small zero (x ∷ fds) d e = omega arith
      slot_small (suc i) (x ∷ fds) d e = omega (arith, slot_small i fds d e)

-- Deleting a context faults for the descriptor that is equal to the size of the table, and only then;
-- otherwise the context is gone and the others are as before.
pub del_fd_context-right :
    (fd : ℕ) (m : FdContextManager)
    → ((fd ≡ length m.fds) × (del_fd_context (pos fd) m ≡ none))
      ⊎ ((m' : FdContextManager) × (del_fd_context (pos fd) m ≡ some m')
          × (slot fd m'.fds ≡ none)
          × ((j : ℕ) → j ≢ fd → slot j m'.fds ≡ slot j m.fds))
unfolding del_fd_context
del_fd_context-right fd m = elim (Bool-cases (ltb (length m.fds) fd)) [
  | inl beyond ↦ inr (m, rw beyond refl, slot-outside fd m.fds (ground arith), (λ j other. refl))
  | inr inside ↦ elim (Bool-cases (fd == length m.fds)) [
    | inl at_end ↦ inl (ground arith, rw (inside, at_end) refl)
    | inr within ↦ inr (
      record { fds = set m.fds fd none },
      rw (inside, within) refl,
      ground (arith, slot-set fd fd none m.fds),
      (λ j other. ground (arith, slot-set j fd none m.fds)),
    )
  ]
]
