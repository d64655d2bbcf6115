-- ===== src/Queue/Take.antt =====
-- The step that both pops share: the oldest pointer is taken, and the node that was the head is
-- freed.
use alter.Common.{
  ℕ, ◌+◌, ◌-◌, ◌%◌, ◌^◌, true, false, Option, some, List, [], ◌∷◌, ◌++◌, ◌≡◌, ◌≢◌, ◌==◌, ◌||◌,
  arith, has, refl, sym, ap, ◌∙◌,
}
use alter.Common.Chain
use alter.Common.Chain.{Chain, nil, cons}
use alter.Allocator.{Allocator, Frees, freed}
use alter.Queue.Defs.{Queue, take_head, unlock}
use alter.Queue.Invariant.{HoldsAt, Holds, behind, pointers}

-- Behind the first node come its successor and the nodes behind that one.
behind-next :
    {next : ℕ → ℕ} {stop p : ℕ} {xs : List ℕ}
    → Chain next stop p xs
    → xs ++ stop ∷ [] ≡ p ∷ behind xs stop
behind-next nil = refl
behind-next (cons e out c) = refl

start_node :
    {next : ℕ → ℕ} {stop p : ℕ} {xs : List ℕ}
    → Chain next stop p xs
    → (has p xs || (p == stop)) ≡ true
start_node nil = ground arith
start_node (cons e out c) = ground arith

-- How taking the first pointer ends.
pub record Takes (al : Allocator) (q : Queue al.State) (w : ℕ) (vs : List ℕ) : Type 0 where
  pub q' : Queue al.State
  pub runs : take_head al q ≡ some (w, q')
  pub rest : Holds al (unlock q') vs
  pub at_head : q'.head ≡ (q.entry q.head).next
  pub same_entries : q'.entry ≡ q.entry
  pub value : (q.entry (q.entry q.head).next).pointer ≡ w
  pub same_others :
      (q'.held ≡ q.held)
      × (q'.tail ≡ q.tail)
      × (q'.signals ≡ q.signals)
      × (q'.empty_waiters ≡ q.empty_waiters)
      × (q'.destroyed ≡ q.destroyed)

module _ (al : Allocator) (q : Queue al.State) {x : ℕ} {xs vs : List ℕ}
    (h : HoldsAt al (unlock q) (x ∷ xs) vs) where
  abbrev next : ℕ
  next = (q.entry q.head).next

  is_head : x ≡ q.head
  is_head = (Chain.uncons h.chain).0

  ne_tail : (q.head == q.tail) ≡ false
  ne_tail = ground (arith, is_head, h.tail_out)

  rest-Chain : Chain (λ a. (q.entry a).next) q.tail next xs
  rest-Chain = (Chain.uncons h.chain).2

  first : vs ≡ (q.entry next).pointer ∷ pointers q.entry (behind xs q.tail)
  first = sym h.values ∙ ap (pointers q.entry) (behind-next rest-Chain)

  head_node : (has q.head (x ∷ xs) || (q.head == q.tail)) ≡ true
  head_node = ground (arith, is_head)

  head_pos : (q.head == 0) ≡ false
  head_pos = ground (arith, h.not_null q.head head_node)

  next_pos : (next == 0) ≡ false
  next_pos = ground (arith, h.not_null next, start_node rest-Chain)

  other_node : (a : ℕ) → (has a xs || (a == q.tail)) ≡ true → a ≢ q.head
  other_node a i = ground (arith, is_head, (Chain.uncons h.chain).1, ne_tail)

  take_head-eq :
      {m : Option al.State} {w : ℕ} {ws : List ℕ}
      → vs ≡ w ∷ ws
      → al.pfree q.head q.pool ≡ m
      → Frees al.IsValid al.Live q.pool q.head m
      → Takes al q w ws
  unfolding take_head
  take_head-eq {w} {ws} e run (freed {s'} ok gone) = record {
    q' = record q { pool = s'; head = next; nelts = (q.nelts + 2 ^ 32 - 1) % 2 ^ 32 };
    runs =
        let value : (q.entry next).pointer ≡ w = cc (first, e) in
        simp (head_pos, next_pos, run, value);
    rest = record {
      nodes = xs;
      at = record {
        unlocked = refl;
        pool_valid = ok;
        chain = rest-Chain;
        tail_out = ground (arith, h.tail_out);
        tail_next = h.tail_next;
        live = λ a i. (gone a).1 (h.live a (ground arith), other_node a i);
        not_null = λ a i. h.not_null a (ground arith);
        values = cc (first, e);
        size = ground (arith, h.size, e);
      };
    };
    at_head = refl;
    same_entries = refl;
    value = cc (first, e);
    same_others = (refl, refl, refl, refl, refl);
  }

-- A queue with no pointer: the head is the tail.
pub empty_head :
    (al : Allocator) (q : Queue al.State) (xs : List ℕ)
    → HoldsAt al (unlock q) xs []
    → (q.head == q.tail) ≡ true
empty_head al q [] h = ground (arith, Chain.eq_of_nil h.chain)
empty_head al q (x ∷ xs) h = absurd (cc (first al q h))

pub take_from :
    (al : Allocator) (q : Queue al.State) (xs : List ℕ) {w : ℕ} {vs : List ℕ}
    → HoldsAt al (unlock q) xs (w ∷ vs)
    → ((q.head == q.tail) ≡ false) × ((q.head == 0) ≡ false) × Takes al q w vs
take_from al q [] h = absurd (cc (h.values))
take_from al q (x ∷ xs) h = (
  ne_tail al q h,
  head_pos al q h,
  take_head-eq al q h refl refl
      (al.pfree-Frees q.pool q.head h.pool_valid (h.live q.head (head_node al q h))),
)
