-- ===== src/Queue/Links.antt =====
-- The entries behind the head of the lock-free queue, up to the one whose link is NULL.
use alter.Common.{
  ℕ, ◌<◌, true, false, List, [], ◌∷◌, ◌++◌, length, ◌==◌, has, update, ◌≡◌, ◌≢◌, refl, ap, sym, ◌∙◌,
  arith, inl, inr, Bool-cases,
}

-- From an entry the links lead through `xs` to NULL.
pub data Links (next : ℕ → ℕ) : ℕ → List ℕ → Type 0 where
  last : {a : ℕ} → next a ≡ 0 → Links next a []
  link : {a b : ℕ} {xs : List ℕ} → next a ≡ b → 0 < b → Links next b xs → Links next a (b ∷ xs)

-- The last entry from `a` on.
unfoldable pub final : ℕ → List ℕ → ℕ
final a [] = a
final a (x ∷ xs) = final x xs

unfoldable pub pointers : (ℕ → ℕ) → List ℕ → List ℕ
pointers pointer [] = []
pointers pointer (x ∷ xs) = pointer x ∷ pointers pointer xs

pub final-snoc : (a n : ℕ) (xs : List ℕ) → final a (xs ++ n ∷ []) ≡ n
unfolding final
final-snoc a n [] = refl
final-snoc a n (x ∷ xs) = final-snoc x n xs

pub pointers-snoc :
    (pointer : ℕ → ℕ) (xs : List ℕ) (n : ℕ)
    → pointers pointer (xs ++ n ∷ []) ≡ pointers pointer xs ++ pointer n ∷ []
unfolding pointers
pointers-snoc pointer [] n = refl
pointers-snoc pointer (x ∷ xs) n = ap (λ ps. pointer x ∷ ps) (pointers-snoc pointer xs n)

pub pointers-same :
    (f g : ℕ → ℕ) (xs : List ℕ)
    → ((a : ℕ) → has a xs ≡ true → f a ≡ g a)
    → pointers f xs ≡ pointers g xs
unfolding pointers
pointers-same f g [] h = refl
pointers-same f g (x ∷ xs) h =
    let rest = pointers-same f g xs λ a i. h a (ground (arith, i)) in
    rw (h x (ground arith), rest) refl

pub Links-same :
    {next : ℕ → ℕ} (next' : ℕ → ℕ) {a : ℕ} {xs : List ℕ}
    → Links next a xs
    → ((b : ℕ) → has b (a ∷ xs) ≡ true → next' b ≡ next b)
    → Links next' a xs
Links-same next' (last {a} e) h = last (h a (ground arith) ∙ e)
Links-same next' (link {a} e pos l) h =
    link (h a (ground arith) ∙ e) pos (Links-same next' l λ b i. h b (ground (arith, i)))

-- One more entry at the end.
pub Links-snoc :
    {next : ℕ → ℕ} {a : ℕ} {xs : List ℕ} (t n : ℕ)
    → Links next a xs
    → final a xs ≡ t
    → next t ≡ 0
    → next n ≡ 0
    → n ≢ t
    → 0 < n
    → Links (update next t n) a (xs ++ n ∷ [])
unfolding final
Links-snoc t n (last {a} e) at_end open_end new ne pos =
    let here : (a == t) ≡ true = ground (arith, at_end) in
    let other : (n == t) ≡ false = ground arith in link (rw here refl) pos (last (rw other new))
Links-snoc t n (link {a} {b} e some_next l) at_end open_end new ne pos =
    let other : (a == t) ≡ false = elim (Bool-cases (a == t)) [
      | inl same ↦ absurd (ground (arith, same, e, open_end, some_next))
      | inr other ↦ other
    ] in
    link (rw other e) some_next (Links-snoc t n l at_end open_end new ne pos)

-- The link of an entry that is not the last leads to one behind the first.
pub next-has :
    (next : ℕ → ℕ) {a : ℕ} {xs : List ℕ} (t : ℕ)
    → Links next a xs
    → has t (a ∷ xs) ≡ true
    → 0 < next t
    → has (next t) xs ≡ true
next-has next t (last {a} e) i some_next =
    let same : t ≡ a = ground (arith, i) in absurd (omega (arith, ap next same, e, some_next))
next-has next t (link {a} {b} {xs} e pos l) i some_next = elim (Bool-cases (t == a)) [
  | inl same ↦ let there : next t ≡ b = ap next (ground (arith, same)) ∙ e in ground (arith, there)
  | inr other ↦ ground (arith, next-has next t l (ground (arith, i, other)) some_next)
]

pub final-behind : (a b : ℕ) (xs : List ℕ) → final a xs ≡ b → has b xs ≡ false → (xs ≡ []) × (a ≡ b)
unfolding final
final-behind a b [] e out = (refl, e)
final-behind a b (x ∷ xs) e out =
    let (none, same) = final-behind x b xs e (ground (arith, out)) in
    absurd (ground (arith, out, same))

-- The links from an entry lead one way.
same_length :
    {next : ℕ → ℕ} {a : ℕ} {xs ys : List ℕ}
    → Links next a xs
    → Links next a ys
    → length xs ≡ length ys
same_length (last e) (last e') = refl
same_length (last e) (link e' pos l) = absurd (omega (arith, e, e', pos))
same_length (link e pos l) (last e') = absurd (omega (arith, e, e', pos))
same_length (link {b} {xs} e pos l) (link {b = c} e' pos' l') =
    let same : c ≡ b = sym e' ∙ e in omega (arith, same_length l (rw same at l'))

-- What an entry leads to is shorter than what leads to it.
shorter :
    {next : ℕ → ℕ} {a : ℕ} {xs : List ℕ} (b : ℕ)
    → Links next a xs
    → has b xs ≡ true
    → (ys : List ℕ) × Links next b ys × (length ys < length xs)
shorter b (last e) i = cc
shorter b (link {b = c} {xs} e pos l) i = elim (Bool-cases (b == c)) [
  | inl same ↦ let eq : c ≡ b = ground (arith, same) in (xs, rw eq at l, omega arith)
  | inr other ↦
      let (ys, l', less) = shorter b l (ground (arith, i, other)) in (ys, l', omega (arith, less))
]

-- So no entry leads to itself.
pub Links-out : {next : ℕ → ℕ} {a : ℕ} {xs : List ℕ} → Links next a xs → has a xs ≡ false
Links-out {a} {xs} l = elim (Bool-cases (has a xs)) [
  | inl i ↦ let (ys, l', less) = shorter a l i in absurd (omega (arith, same_length l l', less))
  | inr out ↦ out
]
