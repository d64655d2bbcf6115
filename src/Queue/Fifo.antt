-- ===== src/Queue/Fifo.antt =====
-- What all runs of the lock-free queue keep: its entries form one chain, and pointers leave it in the
-- order in which they came.
use alter.Common.{ℕ, ◌<◌, Bool, true, false, List, [], ◌∷◌, ◌++◌, ◌==◌, has, ◌≡◌, ◌≢◌, ◌∙◌, arith}
use alter.Queue.LockFree.{
  Stand, outside, linking, aiming, helping, joined, popping, looking, deciding, taking, leaving,
  Shared, Event, pushed, popped,
}
use alter.Queue.Links.{Links, final, pointers}

-- The pointers that a run pushed and popped, in order.
unfoldable pub all_pushed : List Event → List ℕ
all_pushed [] = []
all_pushed (pushed p ∷ es) = all_pushed es ++ p ∷ []
all_pushed (_ ∷ es) = all_pushed es

unfoldable pub all_popped : List Event → List ℕ
all_popped [] = []
all_popped (popped p ∷ es) = all_popped es ++ p ∷ []
all_popped (_ ∷ es) = all_popped es

-- Whether a thread has an entry that is not linked in yet.
abbrev pub owns : ℕ → Stand → Bool
owns n (linking m) = n == m
owns n (aiming m _) = n == m
owns n (helping m _ _) = n == m
owns n _ = false

-- `linked` says which entries have been in the queue, `rest` are those behind the head.
module _ (s : Shared) (linked : ℕ → Bool) (rest : List ℕ) where
  pub record IsPrivate (n : ℕ) : Type 0 where
    pub apart : linked n ≡ false
    pub open_end : s.next n ≡ 0
    pub not_null : 0 < n
    pub known : s.seen n ≡ true

  -- An entry that was the head.
  pub record IsPast (h : ℕ) : Type 0 where
    pub old : linked h ≡ true
    pub behind : has h rest ≡ false

  -- The tail was read behind that head, and was another entry.
  pub record IsAhead (h t : ℕ) : Type 0 where
    pub has_next : h ≢ t → 0 < s.next h
    pub moved : h ≢ t → s.tail ≢ h

  pub data Stands : Stand → Type 0 where
    at_outside : Stands outside
    at_linking : {n : ℕ} → IsPrivate n → Stands (linking n)
    at_aiming : {n t : ℕ} → IsPrivate n → linked t ≡ true → Stands (aiming n t)
    at_helping :
        {n t x : ℕ} → IsPrivate n → linked t ≡ true → s.next t ≡ x → 0 < x → Stands (helping n t x)
    at_joined : {n t : ℕ} → linked t ≡ true → s.next t ≡ n → 0 < n → Stands (joined n t)
    at_popping : {h : ℕ} → IsPast h → Stands (popping h)
    at_looking : {h t : ℕ} → IsPast h → IsAhead h t → Stands (looking h t)
    at_deciding :
        {h t x : ℕ}
        → IsPast h
        → IsAhead h t
        → (0 < x → s.next h ≡ x)
        → (h ≢ t → 0 < x)
        → Stands (deciding h t x)
    at_taking : {h x p : ℕ} → linked x ≡ true → s.pointer x ≡ p → Stands (taking h x p)
    at_leaving : {h : ℕ} → Stands (leaving h)

pub record IsFifo (es : List Event) (s : Shared) : Type 0 where
  pub linked : ℕ → Bool
  pub rest : List ℕ
  pub links : Links s.next s.head rest
  pub old : (a : ℕ) → has a (s.head ∷ rest) ≡ true → linked a ≡ true
  pub at_end : (a : ℕ) → linked a ≡ true → s.next a ≡ 0 → final s.head rest ≡ a
  pub tail_in : has s.tail (s.head ∷ rest) ≡ true
  pub known : (a : ℕ) → linked a ≡ true → s.seen a ≡ true
  pub stands : (i : ℕ) → Stands s linked rest (s.stand i)
  pub apart : (i j n : ℕ) → owns n (s.stand i) ≡ true → owns n (s.stand j) ≡ true → i ≡ j
  pub order : all_pushed es ≡ all_popped es ++ pointers s.pointer rest

-- What must stay of the queue for a thread that takes no step.
pub record Keeps (s s' : Shared) (linked linked' : ℕ → Bool) (rest rest' : List ℕ) : Type 0 where
  pub next_kept : (a : ℕ) → linked a ≡ true → 0 < s.next a → s'.next a ≡ s.next a
  pub linked_kept : (a : ℕ) → linked a ≡ true → linked' a ≡ true
  pub pointer_kept : (a : ℕ) → linked a ≡ true → s'.pointer a ≡ s.pointer a
  pub past_kept : (h : ℕ) → linked h ≡ true → has h rest ≡ false → has h rest' ≡ false
  pub tail_kept : (h : ℕ) → linked h ≡ true → has h rest ≡ false → s.tail ≢ h → s'.tail ≢ h

module _ {s s' : Shared} {linked linked' : ℕ → Bool} {rest rest' : List ℕ}
    (k : Keeps s s' linked linked' rest rest') where
  Past-kept : {h : ℕ} → IsPast s linked rest h → IsPast s' linked' rest' h
  Past-kept {h} p = record { old = k.linked_kept h p.old; behind = k.past_kept h p.old p.behind }

  Ahead-kept :
      {h t : ℕ} → IsPast s linked rest h → IsAhead s linked rest h t → IsAhead s' linked' rest' h t
  Ahead-kept {h} p a = record {
    has_next = λ ne. omega (arith, k.next_kept h p.old (a.has_next ne), a.has_next ne);
    moved = λ ne. k.tail_kept h p.old p.behind (a.moved ne);
  }

  pub Stands-kept :
      {x : Stand}
      → ((n : ℕ) → owns n x ≡ true → IsPrivate s linked rest n → IsPrivate s' linked' rest' n)
      → Stands s linked rest x
      → Stands s' linked' rest' x
  Stands-kept own at_outside = at_outside
  Stands-kept own (at_linking {n} p) = at_linking (own n (ground arith) p)
  Stands-kept own (at_aiming {n} {t} p o) = at_aiming (own n (ground arith) p) (k.linked_kept t o)
  Stands-kept own (at_helping {n} {t} p o e pos) =
      at_helping (own n (ground arith) p) (k.linked_kept t o)
        (k.next_kept t o (omega (arith, e, pos)) ∙ e) pos
  Stands-kept own (at_joined {n} {t} o e pos) =
      at_joined (k.linked_kept t o) (k.next_kept t o (omega (arith, e, pos)) ∙ e) pos
  Stands-kept own (at_popping p) = at_popping (Past-kept p)
  Stands-kept own (at_looking p a) = at_looking (Past-kept p) (Ahead-kept p a)
  Stands-kept own (at_deciding {h} p a e pos) =
      at_deciding (Past-kept p) (Ahead-kept p a)
        (λ some_next. k.next_kept h p.old (omega (arith, e some_next, some_next)) ∙ e some_next) pos
  Stands-kept own (at_taking {x = x} o e) = at_taking (k.linked_kept x o) (k.pointer_kept x o ∙ e)
  Stands-kept own at_leaving = at_leaving
