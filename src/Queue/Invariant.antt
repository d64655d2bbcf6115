-- ===== src/Queue/Invariant.antt =====
-- A queue stands for the list of its pointers.
use alter.Common.{
  ℕ, ◌%◌, ◌^◌, ◌<◌, true, false, List, [], ◌∷◌, ◌++◌, ◌≡◌, ◌==◌, ◌||◌, arith, has, length, refl,
  has-append, length-append,
}
use mathlib.Core.List.{map}
use alter.Common.Chain.{Chain}
use alter.Allocator.{Allocator}
use alter.Queue.Defs.{Entry, Queue, unlock}

-- The nodes behind the head, when the head and `xs` lead to `tail`.
abbrev pub behind : List ℕ → ℕ → List ℕ
behind [] tail = []
behind (x ∷ xs) tail = xs ++ tail ∷ []

abbrev pub pointers : (ℕ → Entry) → List ℕ → List ℕ
pointers entry = map (λ a. (entry a).pointer)

module _ (al : Allocator) where
  -- From the head, which holds no pointer of the queue, the nodes `xs` lead to the tail. The nodes
  -- are items of the pool, and those behind the head hold the pointers `vs`.
  pub record HoldsAt (q : Queue al.State) (xs vs : List ℕ) : Type 0 where
    pub unlocked : q.held ≡ false
    pub pool_valid : al.IsValid q.pool
    pub chain : Chain (λ a. (q.entry a).next) q.tail q.head xs
    pub tail_out : has q.tail xs ≡ false
    pub tail_next : (q.entry q.tail).next ≡ 0
    pub live : (a : ℕ) → (has a xs || (a == q.tail)) ≡ true → al.Live q.pool a
    pub not_null : (a : ℕ) → (has a xs || (a == q.tail)) ≡ true → 0 < a
    pub values : pointers q.entry (behind xs q.tail) ≡ vs
    pub size : q.nelts ≡ length vs % 2 ^ 32

  -- The queue holds the pointers `vs`, the oldest first.
  pub record Holds (q : Queue al.State) (vs : List ℕ) : Type 0 where
    pub nodes : List ℕ
    pub at : HoldsAt q nodes vs

-- The lock does not matter to the contents.
pub HoldsAt-unlock :
    (al : Allocator) {q : Queue al.State} {xs vs : List ℕ}
    → HoldsAt al q xs vs
    → HoldsAt al (unlock q) xs vs
HoldsAt-unlock al h = record {
  unlocked = refl;
  pool_valid = h.pool_valid;
  chain = h.chain;
  tail_out = h.tail_out;
  tail_next = h.tail_next;
  live = h.live;
  not_null = h.not_null;
  values = h.values;
  size = h.size;
}

pub has-behind :
    (a t : ℕ) (xs : List ℕ) → has a (behind xs t) ≡ true → (has a xs || (a == t)) ≡ true
has-behind a t [] h = ground arith
has-behind a t (x ∷ xs) h = ground (arith, has-append a xs (t ∷ []))

pub behind-snoc : (xs : List ℕ) (t e : ℕ) → behind (xs ++ t ∷ []) e ≡ behind xs t ++ e ∷ []
behind-snoc [] t e = refl
behind-snoc (x ∷ xs) t e = refl

pub pointers-same :
    (entry entry' : ℕ → Entry) (ys : List ℕ)
    → ((a : ℕ) → has a ys ≡ true → (entry' a).pointer ≡ (entry a).pointer)
    → pointers entry' ys ≡ pointers entry ys
pointers-same entry entry' [] same = refl
pointers-same entry entry' (y ∷ ys) same =
    ground (arith, same y, pointers-same entry entry' ys λ a i. same a (ground arith))

pub length-behind : (xs : List ℕ) (t : ℕ) → length (behind xs t) ≡ length xs
length-behind [] t = refl
length-behind (x ∷ xs) t = omega (arith, length-append xs (t ∷ []))
