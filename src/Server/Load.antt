-- ===== src/Server/Load.antt =====
-- How the listener of the server loads the handlers.
use alter.Common.{
  ℕ, zero, suc, ◌+◌, ◌-◌, ◌%◌, ◌^◌, ◌≤◌, ◌<◌, true, false, List, [], ◌∷◌, ◌++◌, ◌&&◌, ltb, ◌==◌,
  update, if◌then◌else◌, length, length-append, ◌≡◌, ◌⊎◌, refl, inl, inr, arith, Bool-cases,
}
use alter.Server.Defs.{EventInfo, disabled}
use alter.Server.Listener.{Server, spawn_loop, spawn, least_loop, least, accept, count_up, put}

-- `i` is a handler with the smallest balance of all before `n`.
pub record IsLeast (balance : ℕ → ℕ) (n i : ℕ) : Type 0 where
  pub bound : i < n
  pub least : (j : ℕ) → j < n → balance i ≤ balance j

least_loop-IsLeast :
    (balance : ℕ → ℕ) (k i min : ℕ)
    → IsLeast balance i min
    → IsLeast balance (i + k) (least_loop balance k i min)
unfolding least_loop
least_loop-IsLeast balance zero i min h = let same : i ≡ i + zero = omega arith in rw same at h
least_loop-IsLeast balance (suc k) i min h =
    let next : IsLeast balance (i + 1) (if ltb (balance i) (balance min) then i else min) = step in
    let all : i + 1 + k ≡ i + suc k = omega arith in
    rw all at
      (least_loop-IsLeast balance k (i + 1) (if ltb (balance i) (balance min) then i else min) next)
  where
    step : IsLeast balance (i + 1) (if ltb (balance i) (balance min) then i else min)
    step = elim (Bool-cases (ltb (balance i) (balance min))) [
      | inl less ↦
          rw less
            (record { bound = omega arith; least = λ j below. ground (arith, less, h.least j) })
      | inr more ↦ rw more (record {
        bound = omega (arith, h.bound);
        least = λ j below. ground (arith, more, h.least j);
      })
    ]

pub least-IsLeast :
    (balance : ℕ → ℕ) (opened : ℕ) → 0 < opened → IsLeast balance opened (least balance opened)
unfolding least
least-IsLeast balance opened h =
    let all : 1 + (opened - 1) ≡ opened = omega (arith, h) in
    rw all at (
      least_loop-IsLeast balance (opened - 1) 1 0
        (record { bound = omega arith; least = λ j below. ground arith }))

-- The counts of the handlers before `opened` are those of their pollsets.
pub record IsCounted (s : Server) : Type 0 where
  pub counts : (j : ℕ) → j < s.opened → s.balance j ≡ length (s.pollset j)

spawn_loop-counts :
    (k i : ℕ) (s : Server)
    → ((j : ℕ) → j < i → s.balance j ≡ length (s.pollset j))
    → (j : ℕ) → j < i + k
    → (spawn_loop k i s).balance j ≡ length ((spawn_loop k i s).pollset j)
unfolding spawn_loop
spawn_loop-counts zero i s h j below = h j (omega arith)
spawn_loop-counts (suc k) i s h j below =
    spawn_loop-counts k (i + 1)
      (record s { balance = update s.balance i 0; pollset = update s.pollset i [] })
      (λ j' below'. ground (arith, h j')) j (omega arith)

spawn_loop-opened : (k i : ℕ) (s : Server) → (spawn_loop k i s).opened ≡ s.opened
unfolding spawn_loop
spawn_loop-opened zero i s = refl
spawn_loop-opened (suc k) i s =
    spawn_loop-opened k (i + 1)
      (record s { balance = update s.balance i 0; pollset = update s.pollset i [] })

pub spawn-IsCounted :
    (min max : ℕ) (balance : ℕ → ℕ) (pollset : ℕ → List EventInfo)
    → IsCounted (spawn min max balance pollset)
unfolding spawn
spawn-IsCounted min max balance pollset = record {
  counts = λ j below.
      spawn_loop-counts min 0 fresh (λ j' below'. absurd (omega arith)) j
        (omega (arith, spawn_loop-opened min 0 fresh));
}
  where
    fresh : Server
    fresh = record { min = min; max = max; opened = min; balance = balance; pollset = pollset }

-- An `if` whose branches agree with what stands at the index.
abbrev one_more : (ℕ → List EventInfo) → (i j : ℕ) → ℕ
one_more pollset i j = if j == i then length (pollset j) + 1 else length (pollset j)

length-put :
    (e : EventInfo) (pollset : ℕ → List EventInfo) (i j : ℕ)
    → length (put pollset i e j) ≡ one_more pollset i j
length-put e pollset i j =
    go (ground arith) (length-append (pollset i) (record e { state = disabled } ∷ []))
  where
    go :
        (j ≡ i) ⊎ ((j == i) ≡ false)
        → length (pollset i ++ record e { state = disabled } ∷ []) ≡ length (pollset i) + 1
        → length (put pollset i e j) ≡ one_more pollset i j
    go (inl same) more = rw same (ground (arith, more))
    go (inr other) more = rw other refl

module _ (e : EventInfo) (s : Server) where
  abbrev pub first : ℕ
  first = least s.balance s.opened

  -- What accept does when it starts no handler.
  accept-old :
      (s.balance first ≡ 0) ⊎ (s.max ≤ s.opened)
      → accept e s
        ≡ record s { balance = count_up s.balance first; pollset = put s.pollset first e }
  unfolding accept
  accept-old h =
      let full : (ltb 0 (s.balance first) && ltb s.opened s.max) ≡ false = ground (arith, h) in
      rw full refl

  accept-new :
      0 < s.balance first
      → s.opened < s.max
      → accept e s ≡ record s {
        opened = (s.opened + 1) % 2 ^ 32;
        balance = count_up (update s.balance s.opened 0) s.opened;
        pollset = put (update s.pollset s.opened []) first e;
      }
  unfolding accept
  accept-new busy more =
      let on : (ltb 0 (s.balance first) && ltb s.opened s.max) ≡ true =
        ground (arith, busy, more) in
      rw on refl

  -- When the server has a handler, the counts of the handlers are those of their connections and
  -- are below 2 ^ 32 - 1, and the least loaded handler has none or there may be no more
  -- handlers, an accepted connection goes to a handler with the smallest count, and the counts
  -- are right again.
  pub accept-IsCounted :
      0 < s.opened
      → IsCounted s
      → ((j : ℕ) → j < s.opened → s.balance j + 1 < 2 ^ 32)
      → (s.balance first ≡ 0) ⊎ (s.max ≤ s.opened)
      → IsLeast s.balance s.opened first
        × ((accept e s).pollset first ≡ s.pollset first ++ record e { state = disabled } ∷ [])
        × IsCounted (accept e s)
  accept-IsCounted some_open c small h =
      let l = least-IsLeast s.balance s.opened some_open in
      let here : (first == first) ≡ true = ground arith in
      (
        l,
        rw (accept-old h) (rw here refl),
        rw (accept-old h) (record {
          counts = λ j below.
              ground (arith, length-put e s.pollset first j, c.counts j below, small j below);
        }),
      )

  -- When every handler of the server has a connection and there may be more handlers, an
  -- accepted connection is counted for a new handler, whose pollset is empty, but goes to the
  -- pollset of the old handler with the smallest count, whose count stays.
  pub accept-Miscounts :
      0 < s.opened
      → s.opened + 1 < 2 ^ 32
      → s.opened < s.max
      → ((j : ℕ) → j < s.opened → 0 < s.balance j)
      → ((accept e s).opened ≡ s.opened + 1)
        × ((accept e s).balance s.opened ≡ 1)
        × ((accept e s).pollset s.opened ≡ [])
        × ((accept e s).balance first ≡ s.balance first)
        × ((accept e s).pollset first ≡ s.pollset first ++ record e { state = disabled } ∷ [])
  accept-Miscounts some_open small more busy =
      let l = least-IsLeast s.balance s.opened some_open in
      let new = accept-new (busy first l.bound) more in
      let apart : (first == s.opened) ≡ false = ground (arith, l.bound) in
      let apart' : (s.opened == first) ≡ false = ground (arith, l.bound) in
      let here : (first == first) ≡ true = ground arith in
      let here' : (s.opened == s.opened) ≡ true = ground arith in
      (
        rw new (omega (arith, small)),
        rw new (rw here' refl),
        rw new (rw (apart', here') refl),
        rw new (rw apart refl),
        rw new (rw (here, apart) refl),
      )
