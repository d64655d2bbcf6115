-- ===== src/Worker/Release.antt =====
-- The buffer of a request in src/worker/alter.cpp, which the handler and the transporters share:
-- Alter::Reflector::recv_after, Alter::Transporter::send_after and Alter::Handler::execute as the steps
-- of threads that run in any order.
use alter.Common.{
  ℕ, zero, suc, ◌+◌, ◌-◌, ◌%◌, ◌^◌, ◌<◌, List, [], ◌∷◌, ◌==◌, if◌then◌else◌, ◌≡◌, refl, arith,
}

-- Where a holder of the buffer stands: before `apr_atomic_dec32(&pointer->ref)`, before the test of
-- `pointer->ref` that follows it, and behind the test.
pub data Holder : Type 0 where
  holding : Holder
  testing : Holder
  done : Holder

-- The buffer with its `ref`. `frees` is how often it was given to frl_slab_pfree.
pub record Buffer : Type 0 where
  pub ref : ℕ
  pub holders : List Holder
  pub frees : ℕ

unfoldable pub followers : (n : ℕ) → List Holder
followers zero = []
followers (suc n) = holding ∷ followers n

-- `Alter::Reflector::recv_after`: the count is set, then the handler and `follow` transporters get the
-- buffer.
unfoldable pub share : (child follow : ℕ) → Buffer
unfolding followers
share child follow = record {
  ref = (child + 1) % 2 ^ 32;
  holders = holding ∷ followers follow;
  frees = 0;
}

-- `apr_atomic_dec32(&pointer->ref)`, which wraps below 0;
unfoldable pub drop_ref : List Holder → Buffer → Buffer
drop_ref hs b = record b { ref = (b.ref + (2 ^ 32 - 1)) % 2 ^ 32; holders = hs }

-- `if (pointer->ref <= 0) frl_slab_pfree(pointer)`.
unfoldable pub test_ref : List Holder → Buffer → Buffer
test_ref hs b = record b { holders = hs; frees = if b.ref == 0 then b.frees + 1 else b.frees }

-- One holder goes from `a` to `b`.
pub data Moves (a b : Holder) : List Holder → List Holder → Type 0 where
  here : {hs : List Holder} → Moves a b (a ∷ hs) (b ∷ hs)
  there : {h : Holder} {hs hs' : List Holder} → Moves a b hs hs' → Moves a b (h ∷ hs) (h ∷ hs')

pub data Releases (b : Buffer) : Buffer → Type 0 where
  drops : {hs : List Holder} → Moves holding testing b.holders hs → Releases b (drop_ref hs b)
  tests : {hs : List Holder} → Moves testing done b.holders hs → Releases b (test_ref hs b)

pub data Released (b : Buffer) : Buffer → Type 0 where
  shared : Released b b
  then_releases : {b' b'' : Buffer} → Released b b' → Releases b' b'' → Released b b''

-- How many hold the buffer, and how many have dropped it but not yet tested.
unfoldable pub held : List Holder → ℕ
held [] = 0
held (holding ∷ hs) = 1 + held hs
held (testing ∷ hs) = held hs
held (done ∷ hs) = held hs

unfoldable pub tested : List Holder → ℕ
tested [] = 0
tested (holding ∷ hs) = tested hs
tested (testing ∷ hs) = 1 + tested hs
tested (done ∷ hs) = tested hs

held-followers : (n : ℕ) → held (followers n) ≡ n
unfolding held followers
held-followers zero = refl
held-followers (suc n) = let ih = held-followers n in omega arith

-- A drop moves one from the holders to those that test, a test moves one out of those.
Moves-drop :
    {hs hs' : List Holder}
    → Moves holding testing hs hs'
    → (held hs ≡ 1 + held hs') × (tested hs' ≡ 1 + tested hs)
unfolding held tested
Moves-drop here = (refl, refl)
Moves-drop (there {h = holding} m) = let (l, r) = Moves-drop m in (omega arith, r)
Moves-drop (there {h = testing} m) = let (l, r) = Moves-drop m in (l, omega arith)
Moves-drop (there {h = done} m) = Moves-drop m

Moves-test :
    {hs hs' : List Holder}
    → Moves testing done hs hs'
    → (held hs ≡ held hs') × (tested hs ≡ 1 + tested hs')
unfolding held tested
Moves-test here = (refl, refl)
Moves-test (there {h = holding} m) = let (l, r) = Moves-test m in (omega arith, r)
Moves-test (there {h = testing} m) = let (l, r) = Moves-test m in (l, omega arith)
Moves-test (there {h = done} m) = Moves-test m

-- The count is the number of holders. Nobody frees the buffer before the last drop, and behind the last
-- drop somebody tests or has freed.
pub record IsCounted (b : Buffer) : Type 0 where
  pub count : b.ref ≡ held b.holders
  pub bound : b.ref < 2 ^ 32
  pub safe : 0 < b.ref → b.frees ≡ 0
  pub last : b.ref ≡ 0 → 0 < tested b.holders + b.frees

share-IsCounted : (follow : ℕ) → follow + 1 < 2 ^ 32 → IsCounted (share follow follow)
unfolding share held
share-IsCounted follow below =
    let e = held-followers follow in
    record {
      count = omega arith;
      bound = omega arith;
      safe = λ _. refl;
      last = λ e0. absurd (omega arith);
    }

Releases-IsCounted : {b b' : Buffer} → Releases b b' → IsCounted b → IsCounted b'
unfolding drop_ref test_ref
Releases-IsCounted {b} (drops m) c =
    let (l, r) = Moves-drop m in
    let count = c.count in
    let bound = c.bound in
    record {
      count = omega arith;
      bound = omega arith;
      safe = λ _. c.safe (omega arith);
      last = λ _. omega arith;
    }
Releases-IsCounted {b} (tests m) c =
    let (l, r) = Moves-test m in
    let count = c.count in
    record {
      count = omega arith;
      bound = c.bound;
      safe = λ more. let s = c.safe more in ground (arith, more, s);
      last = λ e. ground (arith, e);
    }

Released-IsCounted : {b b' : Buffer} → Released b b' → IsCounted b → IsCounted b'
Released-IsCounted shared c = c
Released-IsCounted (then_releases run step) c = Releases-IsCounted step (Released-IsCounted run c)

-- When the count of a buffer is set for one handler and below 2 ^ 32 - 1 transporters, and each
-- drops it and then tests it, in any order, the buffer is not freed while one holds it, and is
-- freed, once or more often, when all have dropped and tested it.
pub Released-frees :
    (follow : ℕ) {b : Buffer}
    → follow + 1 < 2 ^ 32
    → Released (share follow follow) b
    → (0 < held b.holders → b.frees ≡ 0) × (held b.holders ≡ 0 → tested b.holders ≡ 0 → 0 < b.frees)
Released-frees follow {b} below run =
    let c = Released-IsCounted run (share-IsCounted follow below) in
    let count = c.count in
    (λ more. c.safe (omega arith), λ e f. let l = c.last (omega arith) in omega arith)
