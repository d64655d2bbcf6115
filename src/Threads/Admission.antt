-- ===== src/Threads/Admission.antt =====
-- The callers of frl_threads::assign and the mutex under which it opens a thread.
use alter.Common.{
  ℕ, ◌+◌, ◌%◌, ◌^◌, ◌≤◌, ◌<◌, Bool, true, false, Option, none, some, ◌==◌, update, ◌≡◌, arith, refl,
  Bool-cases, inl, inr, ap, sym, ◌∙◌,
}
use alter.Threads.Defs.{
  Caller, away, queued, none_waiting, entering, entered, opening, created, leaving,
}

-- Between the lock and the unlock.
abbrev pub is_inside : Caller → Bool
is_inside away = false
is_inside queued = false
is_inside none_waiting = false
is_inside entering = false
is_inside _ = true

-- Behind the second look at `open`, and before `open++`.
abbrev pub has_room : Caller → Bool
has_room opening = true
has_room created = true
has_room _ = false

abbrev pub is_created : Caller → ℕ
is_created created = 1
is_created _ = 0

-- One caller at most has the mutex; `open` is below `max` where a caller opens a thread; and `open` is the
-- number of threads, or one less between apr_thread_create and `open++`.
pub record Admits (mutex : Option ℕ) (callers : ℕ → Caller) (opened threads max : ℕ) : Type 0 where
  pub one_inside : (a : ℕ) → is_inside (callers a) ≡ true → mutex ≡ some a
  pub room : (a : ℕ) → has_room (callers a) ≡ true → opened < max
  pub counted : (a : ℕ) → mutex ≡ some a → threads ≡ opened + is_created (callers a)
  pub uncounted : mutex ≡ none → threads ≡ opened
  pub opened_bound : opened ≤ max
  pub bound : threads ≤ max
  pub small : max < 2 ^ 32

some_value : {x y : ℕ} → some x ≡ some y → x ≡ y
some_value e = cc

room_inside : (c : Caller) → has_room c ≡ true → is_inside c ≡ true
room_inside opening i = refl
room_inside created i = refl
room_inside _ i = cc

module _ {mutex : Option ℕ} {callers : ℕ → Caller} {opened threads max : ℕ}
    (h : Admits mutex callers opened threads max) (a : ℕ) where
  -- The caller goes on, and creates nothing.
  pub Admits-move :
      (c : Caller)
      → (is_inside c ≡ true → is_inside (callers a) ≡ true)
      → (has_room c ≡ true → opened < max)
      → is_created c ≡ is_created (callers a)
      → Admits mutex (update callers a c) opened threads max
  Admits-move c within fits same = record {
    one_inside = λ b i. elim (Bool-cases (b == a)) [
      | inl e ↦
          let here : b ≡ a = ground (arith, e) in rw here (h.one_inside a (within (rw e at i)))
      | inr e ↦ h.one_inside b (rw e at i)
    ];
    room = λ b i. elim (Bool-cases (b == a)) [
      | inl e ↦ fits (rw e at i)
      | inr e ↦ h.room b (rw e at i)
    ];
    counted = λ b is. elim (Bool-cases (b == a)) [
      | inl e ↦ let here : b ≡ a = ground (arith, e) in rw (e, same) (rw here at (h.counted b is))
      | inr e ↦ rw e (h.counted b is)
    ];
    uncounted = h.uncounted;
    opened_bound = h.opened_bound;
    bound = h.bound;
    small = h.small;
  }

  -- The caller gets the mutex.
  pub lock_mutex-Admits :
      callers a ≡ entering
      → mutex ≡ none
      → Admits (some a) (update callers a entered) opened threads max
  lock_mutex-Admits at free = record {
    one_inside = λ b i. elim (Bool-cases (b == a)) [
      | inl e ↦ let here : b ≡ a = ground (arith, e) in ap some (sym here)
      | inr e ↦ absurd (ground (arith, h.one_inside b (rw e at i), free))
    ];
    room = λ b i. elim (Bool-cases (b == a)) [
      | inl e ↦ absurd (ground (arith, rw e at i))
      | inr e ↦ h.room b (rw e at i)
    ];
    counted = λ b is.
        let here : a ≡ b = some_value is in
        let same : (b == a) ≡ true = ground (arith, here) in
        rw same (omega (arith, h.uncounted free));
    uncounted = λ e. cc;
    opened_bound = h.opened_bound;
    bound = h.bound;
    small = h.small;
  }

  -- It gives it back.
  pub unlock_mutex-Admits :
      callers a ≡ leaving → Admits none (update callers a away) opened threads max
  unlock_mutex-Admits at =
      let mine : mutex ≡ some a = h.one_inside a (rw at refl) in
      record {
        one_inside = λ b i. elim (Bool-cases (b == a)) [
          | inl e ↦ absurd (ground (arith, rw e at i))
          | inr e ↦
              let other : some b ≡ some a = sym (h.one_inside b (rw e at i)) ∙ mine in
              let here : b ≡ a = some_value other in absurd (ground (arith, e, here))
        ];
        room = λ b i. elim (Bool-cases (b == a)) [
          | inl e ↦ absurd (ground (arith, rw e at i))
          | inr e ↦ h.room b (rw e at i)
        ];
        counted = λ b is. cc;
        uncounted = λ e. let n = h.counted a mine in rw at at n ∙ omega arith;
        opened_bound = h.opened_bound;
        bound = h.bound;
        small = h.small;
      }

  others_out : (b : ℕ) → mutex ≡ some a → (b == a) ≡ false → has_room (callers b) ≡ false
  others_out b mine e = elim (Bool-cases (has_room (callers b))) [
    | inr out ↦ out
    | inl i ↦
        let other : some b ≡ some a = sym (h.one_inside b (room_inside (callers b) i)) ∙ mine in
        let here : b ≡ a = some_value other in absurd (ground (arith, e, here))
  ]

  -- It creates a thread.
  pub create-Admits :
      callers a ≡ opening → Admits mutex (update callers a created) opened (threads + 1) max
  create-Admits at =
      let mine : mutex ≡ some a = h.one_inside a (rw at refl) in
      let n : threads ≡ opened + 0 = rw at at (h.counted a mine) in
      let below = h.room a (rw at refl) in
      record {
        one_inside = λ b i. elim (Bool-cases (b == a)) [
          | inl e ↦ let here : b ≡ a = ground (arith, e) in rw here mine
          | inr e ↦ h.one_inside b (rw e at i)
        ];
        room = λ b i. below;
        counted = λ b is.
            let here : a ≡ b = some_value (sym mine ∙ is) in
            let same : (b == a) ≡ true = ground (arith, here) in rw same (omega (arith, n));
        uncounted = λ e. absurd (ground (arith, e, mine));
        opened_bound = h.opened_bound;
        bound = omega (arith, n, below);
        small = h.small;
      }

  -- It counts the thread.
  pub count-Admits :
      callers a ≡ created
      → Admits mutex (update callers a leaving) ((opened + 1) % 2 ^ 32) threads max
  count-Admits at =
      let mine : mutex ≡ some a = h.one_inside a (rw at refl) in
      let n : threads ≡ opened + 1 = rw at at (h.counted a mine) in
      let below = h.room a (rw at refl) in
      record {
        one_inside = λ b i. elim (Bool-cases (b == a)) [
          | inl e ↦ let here : b ≡ a = ground (arith, e) in rw here mine
          | inr e ↦ h.one_inside b (rw e at i)
        ];
        room = λ b i. elim (Bool-cases (b == a)) [
          | inl e ↦ absurd (ground (arith, rw e at i))
          | inr e ↦ absurd (ground (arith, rw e at i, others_out b mine e))
        ];
        counted = λ b is.
            let here : a ≡ b = some_value (sym mine ∙ is) in
            let same : (b == a) ≡ true = ground (arith, here) in
            rw same (omega (arith, n, below, h.small));
        uncounted = λ e. absurd (ground (arith, e, mine));
        opened_bound = omega (arith, below, h.small);
        bound = h.bound;
        small = h.small;
      }
