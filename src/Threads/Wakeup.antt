-- ===== src/Threads/Wakeup.antt =====
-- A signal that comes before the consumer waits.
use alter.Common.{
  ℕ, ◌<◌, Bool, true, false, List, [], ◌∷◌, ◌++◌, ◌&&◌, ltb, leb, ◌==◌, count, count-append, ◌≡◌,
  ◌≢◌, refl, arith, Bool-cases, inl, inr, ap, sym, ◌∙◌,
}
use alter.Threads.Consumers.{
  arriving, running, Producer, signalling, Pool, assign_task, open_consumer, wake_early, Deed,
  unseen, woke, executed, produce, hand, woken, signal, sleep, consume, Move, assigns, opens, wakes,
  produces, hands, signals, sleeps, consumes, Moves, start, after,
}

-- The consumer `c` has the pointer `p`, does not run, and is not on the way to a signal.
pub record IsStranded (c p : ℕ) (s : Pool) : Type 0 where
  pub exists : c < s.opened
  pub still : s.place c ≢ running
  pub absent : count c s.consumer_queue ≡ 0
  pub unsignalled : s.producer ≢ signalling c
  pub has : s.pointer c ≡ p

-- No wait of `c` ended without a signal.
pub data NeverWakes (c : ℕ) : List Deed → Type 0 where
  no_deed : NeverWakes c []
  quiet_wait : {es : List Deed} → NeverWakes c es → NeverWakes c (unseen ∷ es)
  executes : {es : List Deed} {i : ℕ} → NeverWakes c es → NeverWakes c (executed i ∷ es)
  other_wakes : {es : List Deed} {i : ℕ} → i ≢ c → NeverWakes c es → NeverWakes c (woke i ∷ es)

-- No thread ran as `c`.
pub data NeverRuns (c : ℕ) : List Deed → Type 0 where
  nothing : NeverRuns c []
  idle : {es : List Deed} → NeverRuns c es → NeverRuns c (unseen ∷ es)
  early : {es : List Deed} {i : ℕ} → NeverRuns c es → NeverRuns c (woke i ∷ es)
  other : {es : List Deed} {i : ℕ} → i ≢ c → NeverRuns c es → NeverRuns c (executed i ∷ es)

abbrev target : Producer → ℕ
target (signalling consumer) = consumer
target _ = 0

count-behind : (a x : ℕ) (xs : List ℕ) → (a == x) ≡ false → count a (xs ++ x ∷ []) ≡ count a xs
count-behind a x xs h = count-append a xs (x ∷ []) ∙ rw h (omega arith)

count-head : (a x : ℕ) (xs : List ℕ) → count a (x ∷ xs) ≡ 0 → ((a == x) ≡ false) × (count a xs ≡ 0)
count-head a x xs h = elim (Bool-cases (a == x)) [
  | inl same ↦ absurd (ground (arith, h, same))
  | inr apart ↦ (apart, ground (arith, h, apart))
]

-- Consumers in different places are different.
apart_by : {A : Type 0} (f : ℕ → A) (c i : ℕ) (x : A) → f c ≢ x → f i ≡ x → (c == i) ≡ false
apart_by f c i x still at = elim (Bool-cases (c == i)) [
  | inl same ↦ let e : c ≡ i = ground (arith, same) in absurd (still (ap f e ∙ at))
  | inr apart ↦ apart
]

module _ (execute : ℕ → Bool) (c p : ℕ) {s : Pool} (h : IsStranded c p s) where
  assign_task-IsStranded : (pointer : ℕ) → IsStranded c p (assign_task pointer s)
  unfolding assign_task
  assign_task-IsStranded pointer = record {
    exists = h.exists;
    still = h.still;
    absent = h.absent;
    unsignalled = h.unsignalled;
    has = h.has;
  }

  open_consumer-IsStranded : IsStranded c p (open_consumer s)
  unfolding open_consumer
  open_consumer-IsStranded = elim (Bool-cases (leb s.waiters 0 && ltb s.opened s.max)) [
    | inl room ↦
        let apart : (c == s.opened) ≡ false = ground (arith, h.exists) in
        rw room (record {
          exists = omega (arith, h.exists);
          still = rw apart h.still;
          absent = count-behind c s.opened s.consumer_queue apart ∙ h.absent;
          unsignalled = h.unsignalled;
          has = h.has;
        })
    | inr stays ↦ rw stays (record {
      exists = h.exists;
      still = h.still;
      absent = h.absent;
      unsignalled = h.unsignalled;
      has = h.has;
    })
  ]

  produce-IsStranded : (pointer : ℕ) (rest : List ℕ) → IsStranded c p (produce pointer rest s)
  unfolding produce
  produce-IsStranded pointer rest = record {
    exists = h.exists;
    still = h.still;
    absent = h.absent;
    unsignalled = elim (Bool-cases (ltb 0 pointer)) [
      | inl some_task ↦ rw some_task λ e. cc
      | inr null ↦ rw null λ e. cc
    ];
    has = h.has;
  }

  hand-IsStranded :
      (consumer pointer : ℕ) (rest : List ℕ)
      → s.consumer_queue ≡ consumer ∷ rest
      → IsStranded c p (hand consumer pointer rest s)
  unfolding hand
  hand-IsStranded consumer pointer rest queued =
      let (apart, absent) = count-head c consumer rest (ap (count c) (sym queued) ∙ h.absent) in
      record {
        exists = h.exists;
        still = h.still;
        absent = absent;
        unsignalled =
            λ e. let same : consumer ≡ c = ap target e in absurd (ground (arith, same, apart));
        has = rw apart h.has;
      }

  signal-IsStranded :
      (consumer : ℕ) → s.producer ≡ signalling consumer → IsStranded c p (signal consumer s)
  unfolding signal
  signal-IsStranded consumer at =
      let apart : (c == consumer) ≡ false = elim (Bool-cases (c == consumer)) [
        | inl same ↦
            let e : consumer ≡ c = ground (arith, same) in
            absurd (h.unsignalled (at ∙ ap signalling e))
        | inr apart ↦ apart
      ] in
      record {
        exists = h.exists;
        still = rw apart h.still;
        absent = h.absent;
        unsignalled = λ e. cc;
        has = h.has;
      }

  sleep-IsStranded : (i : ℕ) → IsStranded c p (sleep i s)
  unfolding sleep
  sleep-IsStranded i = record {
    exists = h.exists;
    still = elim (Bool-cases (c == i)) [
      | inl same ↦ rw same λ e. cc
      | inr apart ↦ rw apart h.still
    ];
    absent = h.absent;
    unsignalled = h.unsignalled;
    has = h.has;
  }

  wake_early-IsStranded : (i : ℕ) → i ≢ c → IsStranded c p (wake_early i s)
  unfolding wake_early
  wake_early-IsStranded i ne =
      let apart : (c == i) ≡ false = ground (arith, ne) in
      record {
        exists = h.exists;
        still = rw apart h.still;
        absent = h.absent;
        unsignalled = h.unsignalled;
        has = h.has;
      }

  consume-IsStranded : (i : ℕ) → s.place i ≡ running → IsStranded c p (consume execute i s)
  unfolding consume
  consume-IsStranded i at =
      let apart = apart_by s.place c i running h.still at in
      record {
        exists = h.exists;
        still = rw apart h.still;
        absent = count-behind c i s.consumer_queue apart ∙ h.absent;
        unsignalled = h.unsignalled;
        has = h.has;
      }

module _ (execute : ℕ → Bool) (c p : ℕ) where
  Move-IsStranded :
      {s s' : Pool} {es : List Deed} {e : Deed}
      → IsStranded c p s
      → NeverWakes c (e ∷ es)
      → Move execute s e s'
      → IsStranded c p s'
  Move-IsStranded h _ (assigns pointer) = assign_task-IsStranded execute c p h pointer
  Move-IsStranded h _ opens = open_consumer-IsStranded execute c p h
  Move-IsStranded h _ (produces pointer rest at queued) =
      produce-IsStranded execute c p h pointer rest
  Move-IsStranded h _ (hands consumer pointer rest at queued) =
      hand-IsStranded execute c p h consumer pointer rest queued
  Move-IsStranded h _ (signals consumer at) = signal-IsStranded execute c p h consumer at
  Move-IsStranded h _ (sleeps i at) = sleep-IsStranded execute c p h i
  Move-IsStranded h (other_wakes ne _) (wakes i at) = wake_early-IsStranded execute c p h i ne
  Move-IsStranded h _ (consumes i at) = consume-IsStranded execute c p h i at

  Move-NeverRuns :
      {s s' : Pool} {es : List Deed} {e : Deed}
      → IsStranded c p s
      → NeverRuns c es
      → Move execute s e s'
      → NeverRuns c (e ∷ es)
  Move-NeverRuns h n (assigns pointer) = idle n
  Move-NeverRuns h n opens = idle n
  Move-NeverRuns h n (produces pointer rest at queued) = idle n
  Move-NeverRuns h n (hands consumer pointer rest at queued) = idle n
  Move-NeverRuns h n (signals consumer at) = idle n
  Move-NeverRuns h n (sleeps i at) = idle n
  Move-NeverRuns h n (wakes i at) = early n
  Move-NeverRuns {s} h n (consumes i at) = other (λ e. h.still (ap s.place (sym e) ∙ at)) n

  NeverWakes-rest : {es : List Deed} {e : Deed} → NeverWakes c (e ∷ es) → NeverWakes c es
  NeverWakes-rest (quiet_wait n) = n
  NeverWakes-rest (executes n) = n
  NeverWakes-rest (other_wakes _ n) = n

  stranded :
      {s s' : Pool} {es : List Deed}
      → IsStranded c p s
      → NeverWakes c es
      → Moves execute s es s'
      → IsStranded c p s' × NeverRuns c es
  stranded h w start = (h, nothing)
  stranded h w (after r step) =
      let (h', n) = stranded h (NeverWakes-rest w) r in
      (Move-IsStranded h' w step, Move-NeverRuns h' n step)

  -- When the producer gives a pointer to a consumer that stands at the head of the consumer
  -- queue and not in it again, and signals it before it waits, then in every run after that in
  -- which no wait of this consumer ends without a signal, it executes nothing, keeps the
  -- pointer, and is not in the consumer queue.
  pub hand-signal-Strands :
      (s : Pool) (rest : List ℕ) {s' : Pool} {es : List Deed}
      → c < s.opened
      → s.place c ≡ arriving
      → s.consumer_queue ≡ c ∷ rest
      → count c rest ≡ 0
      → Moves execute (signal c (hand c p rest s)) es s'
      → NeverWakes c es
      → NeverRuns c es × (s'.pointer c ≡ p) × (count c s'.consumer_queue ≡ 0)
  unfolding hand signal woken
  hand-signal-Strands s rest exists at queued absent r wakes_not =
      let here : (c == c) ≡ true = ground arith in
      let (h, n) =
        stranded
          (record {
            exists = exists;
            still = rw (here, at) λ e. cc;
            absent = absent;
            unsignalled = λ e. cc;
            has = rw here refl;
          })
          wakes_not r in
      (n, h.has, h.absent)
