-- ===== src/BinaryTree/Order.antt =====
-- The search order, kept by `binary_tree_insert`.
use mathlib.Core.Path.{subst}
use liblink.Base.{ℕ, ◌<◌, ◌≡◌, none, arith, ok}
use liblink.BinaryTree.{Tree, null, node, binary_tree_insert, binary_tree_lookup}
use liblink.BinaryTree.Placed.{placed, insert-inv}

module _ {ℓ} {V : Type ℓ} where
  -- Every key of the tree satisfies `P`.
  abbrev pub All : (ℕ → Type 0) → Tree V → Type 0
  All P null = Unit {0}
  All P (node k v l r) = P k × All P l × All P r

  abbrev pub IsOrdered : Tree V → Type 0
  IsOrdered null = Unit {0}
  IsOrdered (node k v l r) = All (λ x. x < k) l × All (λ x. k < x) r × IsOrdered l × IsOrdered r

  All-placed : (P : ℕ → Type 0) (t : Tree V) (q : ℕ) (w : V) → P q → All P t → All P (placed t q w)
  unfolding placed
  All-placed P null q w p a = (p, tt, tt)
  All-placed P (node k v l r) q w p a = ground (arith, All-placed P l q w, All-placed P r q w)

  placed-IsOrdered :
      (t : Tree V) (q : ℕ) (w : V)
      → binary_tree_lookup t q ≡ none
      → IsOrdered t
      → IsOrdered (placed t q w)
  unfolding placed binary_tree_lookup
  placed-IsOrdered null q w fresh o = (tt, tt, tt, tt)
  placed-IsOrdered (node k v l r) q w fresh o = ground (
    arith,
    placed-IsOrdered l q w,
    placed-IsOrdered r q w,
    All-placed (λ x. x < k) l q w,
    All-placed (λ x. k < x) r q w,
  )

  -- `binary_tree_insert` keeps the tree a search tree.
  pub insert-IsOrdered :
      (t t' : Tree V) (q : ℕ) (w : V)
      → IsOrdered t
      → binary_tree_insert t q w ≡ ok t'
      → IsOrdered t'
  insert-IsOrdered t t' q w o e =
      let (fresh, same) = insert-inv t t' q w e in
      subst IsOrdered same (placed-IsOrdered t q w fresh o)
