-- ===== src/Allocator.antt =====
-- What the containers need of frl_slab_palloc and frl_slab_pfree, as an interface. `Slab/Api` fills
-- it from the slab pool.
use alter.Common.{ℕ, ◌<◌, ◌≡◌, ◌≢◌, ◌⊎◌, ◌↔◌, Option, none, some}

-- How a call of frl_slab_palloc from the state `s` ends: with a new item, or with NULL, after which
-- nothing is known of the pool.
pub data Allocates {S : Type 0} (IsValid : S → Type 0) (Live : S → ℕ → Type 0) (s : S)
    : Option (Option ℕ × S) → Type 0 where
  hands_out :
      {p : ℕ} {s' : S}
      → IsValid s'
      → 0 < p
      → ¬ Live s p
      → ((q : ℕ) → Live s' q ↔ ((q ≡ p) ⊎ Live s q))
      → Allocates IsValid Live s (some (some p, s'))
  no_memory : {s' : S} → Allocates IsValid Live s (some (none, s'))

-- How a call of frl_slab_pfree ends.
pub data Frees {S : Type 0} (IsValid : S → Type 0) (Live : S → ℕ → Type 0) (s : S) (p : ℕ)
    : Option S → Type 0 where
  freed :
      {s' : S}
      → IsValid s'
      → ((q : ℕ) → Live s' q ↔ (Live s q × (q ≢ p)))
      → Frees IsValid Live s p (some s')

-- `Request` is what a call finds in its environment, such as the results of `malloc`, and `IsReady`
-- says that this fits the state. A pointer is `Live` from its allocation until it is freed.
pub record Allocator : Type 1 where
  pub State : Type 0
  pub Request : Type 0
  pub IsValid : State → Type 0
  pub IsReady : State → Request → Type 0
  pub Live : State → ℕ → Type 0
  pub palloc : Request → State → Option (Option ℕ × State)
  pub pfree : ℕ → State → Option State
  pub palloc-Allocates :
      (s : State) (r : Request) → IsValid s → IsReady s r → Allocates IsValid Live s (palloc r s)
  pub pfree-Frees : (s : State) (p : ℕ) → IsValid s → Live s p → Frees IsValid Live s p (pfree p s)
