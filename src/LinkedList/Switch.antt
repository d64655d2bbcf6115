-- ===== src/LinkedList/Switch.antt =====
-- The choice between the variants: frl_list_get, frl_list_set, frl_list_add and frl_list_remove of
-- src/lib/frl_list.c, with the field `lock` of the list as an argument. The functions named lock_free
-- have empty bodies, and the value of their call is not defined.
use alter.Common.{ℕ, Option, none}
use alter.Allocator.{Allocator}
use alter.Slab.Defs.{Lock, lock_with, lock_free}
use alter.LinkedList.Defs.{Store, Insert, get, set, add, remove}

module _ {S : Type 0} where
  -- `frl_list_get`
  unfoldable pub list_get : Lock → ℕ → (list key : ℕ) → Store S → Option ℕ
  unfolding get
  list_get lock_free fuel list key s = none
  list_get lock_with fuel list key s = get fuel list key s

  -- `frl_list_set`
  unfoldable pub list_set : Lock → ℕ → (list key pointer : ℕ) → Store S → Option (ℕ × Store S)
  unfolding set
  list_set lock_free fuel list key pointer s = none
  list_set lock_with fuel list key pointer s = set fuel list key pointer s

module _ (al : Allocator) where
  -- `frl_list_add`
  unfoldable pub list_add :
      Lock
      → al.Request
      → (entry : ℕ) → Insert
      → (key pointer : ℕ) → Store al.State
      → Option (ℕ × Store al.State)
  unfolding add
  list_add lock_free r e insert key pointer s = none
  list_add lock_with r e insert key pointer s = add al r e insert key pointer s

  -- `frl_list_remove`
  unfoldable pub list_remove : Lock → ℕ → Store al.State → Option (Store al.State)
  unfolding remove
  list_remove lock_free elts s = none
  list_remove lock_with elts s = remove al elts s
