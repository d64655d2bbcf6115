-- ===== src/Slab/Sharing.antt =====
-- What the threads of the lock-free pool keep in common, in any order of their steps.
use alter.Common.{
  ℕ, zero, suc, ◌+◌, ◌<◌, ◌≤◌, true, false, List, ◌==◌, count, update, if◌then◌else◌, Option, none,
  some, ◌≡◌, refl, ap, sym, ◌∙◌, arith,
}
use alter.Common.Tally.{tally, tally-move, tally-none, tally-only}
use alter.Slab.LockFree.{Stand, outside, popped, freeing, aiming, pushing, pushed, Shared, is_at}

-- Whether a thread has set the stack pointer to busy, and the height of the stack then.
abbrev pub is_owner : Stand → ℕ
is_owner (popped _) = 1
is_owner (pushed _ _ _) = 1
is_owner _ = 0

abbrev pub owned : Stand → ℕ
owned (popped new_pointer) = new_pointer + 1
owned (pushed _ attempt _) = attempt
owned _ = 0

owned-is_owner : (x : Stand) → is_owner x ≡ 0 → owned x ≡ 0
owned-is_owner (popped _) h = absurd (omega arith)
owned-is_owner (pushed _ _ _) h = absurd (omega arith)
owned-is_owner _ h = refl

-- Whether a thread has an item to free.
abbrev pub frees : ℕ → Stand → ℕ
frees x (freeing y) = if x == y then 1 else 0
frees x (aiming y _) = if x == y then 1 else 0
frees x (pushing y _ _) = if x == y then 1 else 0
frees x (pushed y _ _) = if x == y then 1 else 0
frees x _ = 0

abbrev pub busy : Option ℕ → ℕ
busy none = 1
busy (some _) = 0

abbrev pub value : Option ℕ → ℕ
value none = 0
value (some t) = t

-- How often an item stands in the entries 1 to `t` of the stack.
unfoldable pub stacked : ℕ → (ℕ → ℕ) → (t : ℕ) → ℕ
stacked x stack zero = 0
stacked x stack (suc t) = (if x == stack (suc t) then 1 else 0) + stacked x stack t

-- The height of the stack, busy or not.
abbrev pub height : ℕ → Shared → ℕ
height n s = value s.stack_pointer + tally owned s.stand n

-- How often an item is on the stack, handed out, or with a thread that frees it.
abbrev pub found : ℕ → ℕ → Shared → ℕ
found n x s = stacked x s.usage_stack (height n s) + count x s.live + tally (frees x) s.stand n

pub record IsShared (n : ℕ) (total : ℕ → ℕ) (s : Shared) : Type 0 where
  pub owner : tally is_owner s.stand n ≡ busy s.stack_pointer
  pub all : (x : ℕ) → found n x s ≡ total x

pub stacked-above :
    (x : ℕ) (stack : ℕ → ℕ) (p y t : ℕ) → t < p → stacked x (update stack p y) t ≡ stacked x stack t
unfolding stacked
stacked-above x stack p y zero h = refl
stacked-above x stack p y (suc t) h =
    let other : (suc t == p) ≡ false = ground arith in
    rw (other, stacked-above x stack p y t (omega arith)) refl

pub stacked-next :
    (x : ℕ) (stack : ℕ → ℕ) (t : ℕ)
    → stacked x stack (t + 1) ≡ (if x == stack (t + 1) then 1 else 0) + stacked x stack t
unfolding stacked
stacked-next x stack t = let next : t + 1 ≡ suc t = omega arith in rw next refl

busy-value : (o : Option ℕ) → busy o ≡ 1 → value o ≡ 0
busy-value none h = refl
busy-value (some t) h = absurd (omega arith)

pub is_at-some : (a : ℕ) (o : Option ℕ) → is_at a o ≡ true → o ≡ some a
is_at-some a none h = cc
is_at-some a (some b) h = let same : b ≡ a = ground (arith, h) in ap some same

busy_bound : (o : Option ℕ) → busy o ≤ 1
busy_bound none = omega arith
busy_bound (some t) = omega arith

module _ (n : ℕ) (total : ℕ → ℕ) {s : Shared} (h : IsShared n total s) (i : ℕ) (below : i < n) where
  -- A step that moves a thread between stands that own nothing and free the same.
  pub stroll-IsShared :
      (from to : Stand)
      → s.stand i ≡ from
      → (is_owner from ≡ 0) × (is_owner to ≡ 0)
      → ((x : ℕ) → frees x from ≡ frees x to)
      → IsShared n total (record s { stand = update s.stand i to })
  stroll-IsShared from to at idle same =
      let own = tally-move owned s.stand i from to n below at in
      let still : tally owned (update s.stand i to) n ≡ tally owned s.stand n =
        omega (arith, own, owned-is_owner from idle.0, owned-is_owner to idle.1) in
      record {
        owner =
            omega
              (arith, tally-move is_owner s.stand i from to n below at, idle.0, idle.1, h.owner);
        all = λ x.
            ap
              (λ t.
                stacked x s.usage_stack (value s.stack_pointer + t)
                + count x s.live
                + tally (frees x) (update s.stand i to) n)
              still
            ∙ omega (arith, tally-move (frees x) s.stand i from to n below at, same x, h.all x);
      }

  -- The stack pointer is seized.
  pub seize-IsShared :
      (from to : Stand) (t : ℕ)
      → s.stand i ≡ from
      → s.stack_pointer ≡ some t
      → (is_owner from ≡ 0) × (is_owner to ≡ 1)
      → owned to ≡ t
      → ((x : ℕ) → frees x from ≡ frees x to)
      → IsShared n total (record s { stack_pointer = none; stand = update s.stand i to })
  seize-IsShared from to t at free own height_is same =
      let free' : value s.stack_pointer ≡ t = ap value free in
      let level : 0 + tally owned (update s.stand i to) n
          ≡ value s.stack_pointer + tally owned s.stand n =
        omega (
          arith,
          tally-move owned s.stand i from to n below at,
          owned-is_owner from own.0,
          height_is,
          free',
        ) in
      record {
        owner = omega (
          arith,
          tally-move is_owner s.stand i from to n below at,
          own.0,
          own.1,
          h.owner,
          ap busy free,
        );
        all = λ x.
            ap
              (λ l.
                stacked x s.usage_stack l
                + count x s.live
                + tally (frees x) (update s.stand i to) n)
              level
            ∙ omega (arith, tally-move (frees x) s.stand i from to n below at, same x, h.all x);
      }

  -- The owner's height is the stack's, and when it lets go nobody owns anything.
  owner-height : (from : Stand) → s.stand i ≡ from → is_owner from ≡ 1 → height n s ≡ owned from
  owner-height from at own =
      let one : is_owner from ≡ tally is_owner s.stand n = omega (
        arith,
        tally-move is_owner s.stand i from outside n below at,
        own,
        h.owner,
        busy_bound s.stack_pointer,
      ) in
      omega (
        arith,
        busy-value s.stack_pointer (omega (arith, h.owner, one, own)),
        tally-only is_owner owned s.stand i from outside n owned-is_owner below at one refl,
      )

  nobody-owns :
      (from to : Stand)
      → s.stand i ≡ from
      → is_owner from ≡ 1
      → is_owner to ≡ 0
      → (tally is_owner (update s.stand i to) n ≡ 0) × (tally owned (update s.stand i to) n ≡ 0)
  nobody-owns from to at own idle =
      let nobody : tally is_owner (update s.stand i to) n ≡ 0 = omega (
        arith,
        tally-move is_owner s.stand i from to n below at,
        own,
        idle,
        h.owner,
        busy_bound s.stack_pointer,
      ) in
      (nobody, tally-none is_owner owned (update s.stand i to) n owned-is_owner nobody)

  -- The owner sets the stack pointer to `t`, with another stack and other items handed out.
  pub release-IsShared :
      (from to : Stand) (t : ℕ) (stack : ℕ → ℕ) (live : List ℕ)
      → s.stand i ≡ from
      → is_owner from ≡ 1
      → is_owner to ≡ 0
      → ((x : ℕ)
          → stacked x stack t + count x live + frees x to
            ≡ stacked x s.usage_stack (owned from) + count x s.live + frees x from)
      → IsShared n total (record s {
        stack_pointer = some t;
        usage_stack = stack;
        live = live;
        stand = update s.stand i to;
      })
  release-IsShared from to t stack live at own idle same =
      let (nobody, level) = nobody-owns from to at own idle in
      let there : t + tally owned (update s.stand i to) n ≡ t = omega (arith, level) in
      record {
        owner = nobody;
        all = λ x.
            let before : stacked x s.usage_stack (owned from)
                  + count x s.live
                  + tally (frees x) s.stand n
                ≡ total x =
              ap (λ l. stacked x s.usage_stack l + count x s.live + tally (frees x) s.stand n)
                (sym (owner-height from at own))
              ∙ h.all x in
            ap (λ l. stacked x stack l + count x live + tally (frees x) (update s.stand i to) n)
              there
            ∙ omega (arith, tally-move (frees x) s.stand i from to n below at, same x, before);
      }
