-- ===== src/RbTree/Dropping.antt =====
-- `Delete` of netfram/RBTree.h looks for the node to put in place of the deleted one from the root,
-- not from its right child.
use network_etc.Base.{ℕ, ◌≡◌, ◌≢◌}
use network_etc.RbTree.{Tree, sentinel, null}

-- From the node `p` the links lead down to the node `c`.
pub data Reaches (t : Tree) : ℕ → ℕ → Type 0 where
  here : (p c : ℕ) → p ≡ c → Reaches t p c
  left : (p q c : ℕ) → p ≢ sentinel → p ≢ null → t.left p ≡ q → Reaches t q c → Reaches t p c
  right : (p q c : ℕ) → p ≢ sentinel → p ≢ null → t.right p ≡ q → Reaches t q c → Reaches t p c

-- All links down are the same, but those of `n`, which are cleared.
record Cleared (n : ℕ) (t t' : Tree) : Type 0 where
  left : (c : ℕ) → c ≢ n → t'.left c ≡ t.left c
  right : (c : ℕ) → c ≢ n → t'.right c ≡ t.right c
  no_left : t'.left n ≡ null
  no_right : t'.right n ≡ null
