-- ===== src/Queue/Runs.antt =====
-- The steps of the lock-free queue that take an entry, link one in, and take one out.
use alter.Common.{
  ℕ, ◌<◌, Bool, true, false, List, [], ◌∷◌, ◌++◌, ◌==◌, has, has-append, update, ◌≡◌, ◌≢◌, refl, ap,
  sym, ◌∙◌, arith, inl, inr, Bool-cases,
}
use mathlib.Core.List.{append_assoc}
use alter.Queue.LockFree.{
  Stand, outside, linking, aiming, helping, joined, deciding, taking, Shared, start_push, join_tail,
  move_head, Event, quiet, pushed, popped,
}
use alter.Queue.Links.{
  Links, last, link, final, pointers, final-snoc, pointers-snoc, pointers-same, Links-same,
  Links-snoc,
}
use alter.Queue.Fifo.{
  all_pushed, all_popped, owns, IsPrivate, IsAhead, Stands, at_linking, at_aiming, at_helping,
  at_joined, at_taking, IsFifo, Keeps, Stands-kept,
}
use alter.Queue.Turns.{quiet-IsQuiet, all-update, apart-update}

module _ {es : List Event} {s : Shared} (h : IsFifo es s) (i : ℕ) where
  -- An entry that the pool has not handed out before is in nobody's way.
  unseen-unlinked : (n : ℕ) → s.seen n ≡ false → (a : ℕ) → h.linked a ≡ true → (a == n) ≡ false
  unseen-unlinked n new a l = elim (Bool-cases (a == n)) [
    | inl same ↦
        let e : a ≡ n = ground (arith, same) in
        absurd (ground (arith, h.known a l, ap s.seen e, new))
    | inr other ↦ other
  ]

  IsPrivate-of :
      (x : Stand) (n : ℕ)
      → Stands s h.linked h.rest x
      → owns n x ≡ true
      → IsPrivate s h.linked h.rest n
  IsPrivate-of (linking m) n (at_linking p) o = let same : m ≡ n = ground (arith, o) in rw same at p
  IsPrivate-of (aiming m t) n (at_aiming p l) o =
      let same : m ≡ n = ground (arith, o) in rw same at p
  IsPrivate-of (helping m t x) n (at_helping p l e pos) o =
      let same : m ≡ n = ground (arith, o) in rw same at p
  IsPrivate-of _ n st o = cc

  pub start_push-IsFifo :
      (n p : ℕ)
      → s.stand i ≡ outside
      → 0 < n
      → s.seen n ≡ false
      → IsFifo (quiet ∷ es) (start_push i n p s)
  unfolding start_push
  start_push-IsFifo n p out pos new = record {
    linked = h.linked;
    rest = h.rest;
    links = Links-same s'.next h.links λ a l. same_next a (h.old a l);
    old = h.old;
    at_end = λ a l e. h.at_end a l (sym (same_next a l) ∙ e);
    tail_in = h.tail_in;
    known = λ a l. let other = unseen-unlinked n new a l in rw other (h.known a l);
    stands =
        all-update h i (Stands s' h.linked h.rest) (linking n)
          (at_linking (record {
            apart = unlinked;
            open_end = rw here refl;
            not_null = pos;
            known = rw here refl;
          }))
          λ j ne. Stands-kept kept (λ m o. others m) (h.stands j);
    apart = apart-update h i (linking n) λ m o. inr λ j. nobody (ground (arith, o)) j;
    order =
        quiet-IsQuiet.pushes es
        ∙ h.order
        ∙ ap (λ ps. all_popped es ++ ps)
            (pointers-same s.pointer s'.pointer h.rest
              λ a l. sym (kept.pointer_kept a (h.old a (ground (arith, l)))))
        ∙ ap (λ ps. ps ++ pointers s'.pointer h.rest) (sym (quiet-IsQuiet.pops es));
  }
    where
      s' : Shared
      s' = start_push i n p s

      here : (n == n) ≡ true
      here = ground arith

      unlinked : h.linked n ≡ false
      unlinked = elim (Bool-cases (h.linked n)) [
        | inl l ↦ absurd (ground (arith, h.known n l, new))
        | inr o ↦ o
      ]

      same_next : (a : ℕ) → h.linked a ≡ true → s'.next a ≡ s.next a
      same_next a l = let other = unseen-unlinked n new a l in rw other refl

      apart_by_seen : (m : ℕ) → s.seen m ≡ true → (m == n) ≡ false
      apart_by_seen m old = elim (Bool-cases (m == n)) [
        | inl same ↦
            let e : m ≡ n = ground (arith, same) in absurd (ground (arith, old, ap s.seen e, new))
        | inr other ↦ other
      ]

      others : (m : ℕ) → IsPrivate s h.linked h.rest m → IsPrivate s' h.linked h.rest m
      others m q = record {
        apart = q.apart;
        open_end = let other = apart_by_seen m q.known in rw other q.open_end;
        not_null = q.not_null;
        known = let other = apart_by_seen m q.known in rw other q.known;
      }

      nobody : {m : ℕ} → m ≡ n → (j : ℕ) → owns m (s.stand j) ≡ false
      nobody {m} e j = elim (Bool-cases (owns m (s.stand j))) [
        | inl o ↦
            absurd
              (ground (arith, (IsPrivate-of (s.stand j) m (h.stands j) o).known, ap s.seen e, new))
        | inr o ↦ o
      ]

      kept : Keeps s s' h.linked h.linked h.rest h.rest
      kept = record {
        next_kept = λ a l some_next. same_next a l;
        linked_kept = λ a l. l;
        pointer_kept = λ a l. let other = unseen-unlinked n new a l in rw other refl;
        past_kept = λ a l b. b;
        tail_kept = λ a l b ne. ne;
      }

  pub join_tail-IsFifo :
      (n t : ℕ)
      → s.stand i ≡ aiming n t
      → s.next t ≡ 0
      → IsPrivate s h.linked h.rest n
      → h.linked t ≡ true
      → IsFifo (pushed (s.pointer n) ∷ es) (join_tail i n t s)
  unfolding join_tail all_pushed all_popped
  join_tail-IsFifo n t aims open_end p l =
      let free : (s.next t == 0) ≡ true = ground (arith, open_end) in
      rw free (record {
        linked = linked';
        rest = h.rest ++ n ∷ [];
        links =
            Links-snoc t n h.links (h.at_end t l open_end) open_end p.open_end (λ e. other (sym e))
              p.not_null;
        old = λ a o. ground (arith, o, h.old a, has-append a h.rest (n ∷ []));
        at_end = λ a l' e. final-snoc s.head n h.rest ∙ ends a l' e;
        tail_in = ground (arith, h.tail_in, has-append s.tail h.rest (n ∷ []));
        known = λ a l'. ground (arith, l', h.known a, p.known);
        stands =
            all-update h i (Stands s' linked' (h.rest ++ n ∷ [])) (joined n t)
              (at_joined (ground (arith, l)) (rw here refl) p.not_null)
              λ j ne. Stands-kept kept (others j ne) (h.stands j);
        apart = apart-update h i (joined n t) λ m o. cc;
        order =
            ap (λ ps. ps ++ s.pointer n ∷ []) h.order
            ∙ append_assoc (all_popped es) (pointers s.pointer h.rest) (s.pointer n ∷ [])
            ∙ ap (λ ps. all_popped es ++ ps) (sym (pointers-snoc s.pointer h.rest n));
      })
    where
      linked' : ℕ → Bool
      linked' = update h.linked n true

      s' : Shared
      s' = record s { next = update s.next t n; stand = update s.stand i (joined n t) }

      here : (t == t) ≡ true
      here = ground arith

      other : t ≢ n
      other e = ground (arith, ap h.linked e, l, p.apart)

      ends : (a : ℕ) → linked' a ≡ true → s'.next a ≡ 0 → n ≡ a
      ends a l' e = elim (Bool-cases (a == n)) [
        | inl same ↦ ground (arith, same)
        | inr different ↦
            absurd (ground (arith, different, l', e, p.not_null, h.at_end a, h.at_end t l open_end))
      ]

      kept : Keeps s s' h.linked linked' h.rest (h.rest ++ n ∷ [])
      kept = record {
        next_kept = λ a la some_next. ground (arith, some_next, open_end);
        linked_kept = λ a la. ground (arith, la);
        pointer_kept = λ a la. refl;
        past_kept = λ a la out. ground (arith, has-append a h.rest (n ∷ []), out, la, p.apart);
        tail_kept = λ a la out ne. ne;
      }

      others :
          (j : ℕ)
          → j ≢ i
          → (m : ℕ) → owns m (s.stand j) ≡ true
          → IsPrivate s h.linked h.rest m
          → IsPrivate s' linked' (h.rest ++ n ∷ []) m
      others j ne m o q = elim (Bool-cases (m == n)) [
        | inl same ↦ absurd (ne (h.apart j i m o (ground (arith, ap (owns m) aims, same))))
        | inr different ↦ record {
          apart = rw different q.apart;
          open_end = ground (arith, q.apart, l, q.open_end);
          not_null = q.not_null;
          known = q.known;
        }
      ]

  pub move_head-IsFifo :
      (a t x : ℕ)
      → s.stand i ≡ deciding a t x
      → a ≢ t
      → s.head ≡ a
      → IsAhead s h.linked h.rest a t
      → (0 < x → s.next a ≡ x)
      → 0 < x
      → IsFifo (popped (s.pointer x) ∷ es) (move_head i a x s)
  unfolding move_head all_pushed all_popped final pointers
  move_head-IsFifo a t x decides ne at_head ahead leads pos =
      let still : (s.head == a) ≡ true = ground (arith, at_head) in
      let (xs, behind, l) = front h.links (ap s.next at_head ∙ leads pos) pos in
      let among : (b : ℕ) → has b h.rest ≡ has b (x ∷ xs) = λ b. ap (has b) behind in
      let x_old : h.linked x ≡ true = h.old x (ground (arith, among x)) in
      rw still (record {
        linked = h.linked;
        rest = xs;
        links = l;
        old = λ b o. h.old b (ground (arith, o, among b));
        at_end = λ b lb e. ap (final s.head) (sym behind) ∙ h.at_end b lb e;
        tail_in = ground (arith, h.tail_in, among s.tail, ahead.moved ne, at_head);
        known = h.known;
        stands =
            all-update h i (Stands (s' xs) h.linked xs) (taking a x (s.pointer x))
              (at_taking x_old refl)
              λ j nj.
                Stands-kept (kept xs among)
                  (λ n o p. record {
                    apart = p.apart;
                    open_end = p.open_end;
                    not_null = p.not_null;
                    known = p.known;
                  })
                  (h.stands j);
        apart = apart-update h i (taking a x (s.pointer x)) λ n o. cc;
        order =
            h.order
            ∙ ap (λ r. all_popped es ++ pointers s.pointer r) behind
            ∙ sym (append_assoc (all_popped es) (s.pointer x ∷ []) (pointers s.pointer xs));
      })
    where
      front :
          {r : List ℕ}
          → Links s.next s.head r
          → s.next s.head ≡ x
          → 0 < x
          → (xs : List ℕ) × (r ≡ x ∷ xs) × Links s.next x xs
      front (last e) e' pos' = absurd (omega (arith, e, e', pos'))
      front (link {b} {xs} e p l) e' pos' =
          let same : b ≡ x = sym e ∙ e' in (xs, ap (λ c. c ∷ xs) same, rw same at l)

      s' : List ℕ → Shared
      s' xs = record s { head = x; stand = update s.stand i (taking a x (s.pointer x)) }

      kept :
          (xs : List ℕ)
          → ((b : ℕ) → has b h.rest ≡ has b (x ∷ xs))
          → Keeps s (s' xs) h.linked h.linked h.rest xs
      kept xs among = record {
        next_kept = λ b lb some_next. refl;
        linked_kept = λ b lb. lb;
        pointer_kept = λ b lb. refl;
        past_kept = λ b lb out. ground (arith, out, among b);
        tail_kept = λ b lb out ne'. ne';
      }
