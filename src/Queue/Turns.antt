-- ===== src/Queue/Turns.antt =====
-- What keeps the invariant of the lock-free queue: a thread that goes on, and a tail that moves on.
use alter.Common.{
  ℕ, ◌<◌, true, false, List, ◌∷◌, ◌++◌, ◌==◌, has, update, if◌then◌else◌, ◌≡◌, ◌≢◌, ◌⊎◌, refl, ap,
  sym, ◌∙◌, arith, inl, inr, Bool-cases,
}
use alter.Queue.LockFree.{Stand, Shared, Event, quiet, returned}
use alter.Queue.Links.{pointers, next-has}
use alter.Queue.Fifo.{all_pushed, all_popped, owns, Stands, IsFifo, Keeps, Stands-kept}

-- An event that puts nothing in and takes nothing out.
pub record IsQuiet (e : Event) : Type 0 where
  pub pushes : (es : List Event) → all_pushed (e ∷ es) ≡ all_pushed es
  pub pops : (es : List Event) → all_popped (e ∷ es) ≡ all_popped es

pub quiet-IsQuiet : IsQuiet quiet
unfolding all_pushed all_popped
quiet-IsQuiet = record { pushes = λ es. refl; pops = λ es. refl }

pub returned-IsQuiet : (p : ℕ) → IsQuiet (returned p)
unfolding all_pushed all_popped
returned-IsQuiet p = record { pushes = λ es. refl; pops = λ es. refl }

module _ {es : List Event} {s : Shared} (h : IsFifo es s) (i : ℕ) where
  -- One thread goes on.
  pub all-update :
      (P : Stand → Type 0) (x : Stand)
      → P x
      → ((j : ℕ) → j ≢ i → P (s.stand j))
      → (k : ℕ) → P (update s.stand i x k)
  all-update P x here others k = elim (Bool-cases (k == i)) [
    | inl same ↦ rw same here
    | inr other ↦ rw other (others k (ground (arith, other)))
  ]

  -- It owns nothing that others own.
  pub apart-update :
      (x : Stand)
      → ((n : ℕ)
          → owns n x ≡ true
          → (owns n (s.stand i) ≡ true) ⊎ ((j : ℕ) → owns n (s.stand j) ≡ false))
      → (j k n : ℕ) → owns n (update s.stand i x j) ≡ true
      → owns n (update s.stand i x k) ≡ true
      → j ≡ k
  apart-update x own j k n oj ok = cases (ground arith) (ground arith)
    where
      cases :
          ((j ≡ i) × (owns n x ≡ true)) ⊎ ((j ≢ i) × (owns n (s.stand j) ≡ true))
          → ((k ≡ i) × (owns n x ≡ true)) ⊎ ((k ≢ i) × (owns n (s.stand k) ≡ true))
          → j ≡ k
      cases (inl (at_i, _)) (inl (at_i', _)) = at_i ∙ sym at_i'
      cases (inr (_, o)) (inr (_, o')) = h.apart j k n o o'
      cases (inl (at_i, o)) (inr (ne, o')) = elim (own n o) [
        | inl before ↦ at_i ∙ h.apart i k n before o'
        | inr nobody ↦ absurd (ground (arith, o', nobody k))
      ]
      cases (inr (ne, o')) (inl (at_i, o)) = elim (own n o) [
        | inl before ↦ h.apart j i n o' before ∙ sym at_i
        | inr nobody ↦ absurd (ground (arith, o', nobody j))
      ]

  -- The tail may move on in the chain, and a thread goes on; the counts do not matter.
  pub tail-IsFifo :
      (v c : ℕ) (f : List ℕ) (x : Stand) (e : Event)
      → IsQuiet e
      → has v (s.head ∷ h.rest) ≡ true
      → ((a : ℕ) → has a h.rest ≡ false → s.tail ≢ a → v ≢ a)
      → ((n : ℕ) → owns n x ≡ true → owns n (s.stand i) ≡ true)
      → Stands
          (record s { tail = v; nelts = c; freed = f; stand = update s.stand i x })
          h.linked
          h.rest
          x
      → IsFifo (e ∷ es) (record s { tail = v; nelts = c; freed = f; stand = update s.stand i x })
  tail-IsFifo v c f x e q inside moved own here = record {
    linked = h.linked;
    rest = h.rest;
    links = h.links;
    old = h.old;
    at_end = h.at_end;
    tail_in = inside;
    known = h.known;
    stands =
        all-update
          (Stands (record s { tail = v; nelts = c; freed = f; stand = update s.stand i x }) h.linked
            h.rest)
          x here
          λ j ne.
            Stands-kept kept
              (λ n o p. record {
                apart = p.apart;
                open_end = p.open_end;
                not_null = p.not_null;
                known = p.known;
              })
              (h.stands j);
    apart = apart-update x λ n o. inl (own n o);
    order = q.pushes es ∙ h.order ∙ ap (λ ps. ps ++ pointers s.pointer h.rest) (sym (q.pops es));
  }
    where
      kept :
          Keeps s
            (record s { tail = v; nelts = c; freed = f; stand = update s.stand i x })
            h.linked
            h.linked
            h.rest
            h.rest
      kept = record {
        next_kept = λ a l p. refl;
        linked_kept = λ a l. l;
        pointer_kept = λ a l. refl;
        past_kept = λ a l b. b;
        tail_kept = λ a l b ne. moved a b ne;
      }

  -- The value that a tail gets by `swing`.
  swing-in :
      (to from : ℕ)
      → s.next from ≡ to
      → 0 < to
      → s.tail ≡ from
      → (has to (s.head ∷ h.rest) ≡ true) × ((a : ℕ) → has a h.rest ≡ false → s.tail ≢ a → to ≢ a)
  swing-in to from e pos at_from =
      let there : has to h.rest ≡ true = rw e at (
        next-has s.next from h.links (ap (λ t. has t (s.head ∷ h.rest)) (sym at_from) ∙ h.tail_in)
          (omega (arith, e, pos))) in
      (
        ground (arith, there),
        λ a out ne same. ground (arith, there, out, ap (λ b. has b h.rest) same),
      )

  -- The tail is swung by a thread that then stands at `x`, if nobody has moved it.
  pub swing-IsFifo :
      (to from c : ℕ) (x : Stand)
      → s.next from ≡ to
      → 0 < to
      → ((n : ℕ) → owns n x ≡ true → owns n (s.stand i) ≡ true)
      → ((v : ℕ)
          → Stands (record s { tail = v; nelts = c; stand = update s.stand i x }) h.linked h.rest x)
      → IsFifo (quiet ∷ es) (record s {
        tail = if s.tail == from then to else s.tail;
        nelts = c;
        stand = update s.stand i x;
      })
  swing-IsFifo to from c x e pos own here = elim (Bool-cases (s.tail == from)) [
    | inl still ↦
        let (inside, moved) = swing-in to from e pos (ground (arith, still)) in
        rw still (tail-IsFifo to c s.freed x quiet quiet-IsQuiet inside moved own (here to))
    | inr gone ↦ rw gone (
        tail-IsFifo s.tail c s.freed x quiet quiet-IsQuiet h.tail_in (λ a out ne. ne) own
          (here s.tail))
  ]

  -- A step that changes nothing of the queue.
  pub stroll-IsFifo :
      (x : Stand) (e : Event)
      → IsQuiet e
      → ((n : ℕ) → owns n x ≡ true → owns n (s.stand i) ≡ true)
      → Stands (record s { stand = update s.stand i x }) h.linked h.rest x
      → IsFifo (e ∷ es) (record s { stand = update s.stand i x })
  stroll-IsFifo x e q own here =
      tail-IsFifo s.tail s.nelts s.freed x e q h.tail_in (λ a out ne. ne) own here
