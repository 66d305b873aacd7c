-- ===== src/BinaryTree.antt =====
-- BinaryTree.c: an unbalanced search tree with hashes as keys; nodes are never removed.
pub mod Placed
pub mod Order
pub mod Lookup
use liblink.Base.{ℕ, true, false, Option, none, some, ◌==◌, ltb, Outcome, ok, fail, Fault, ◌>>=◌}

pub data Tree {ℓ} (V : Type ℓ) : Type ℓ where
  null : Tree V
  node : ℕ → V → Tree V → Tree V → Tree V

module _ {ℓ} {V : Type ℓ} where
  -- The new node in its place: the walk from `*root` to the `NULL` that it replaces. A key that is
  -- there already stops the process.
  unfoldable pub binary_tree_insert : Tree V → ℕ → V → Outcome (Tree V)
  binary_tree_insert null key value = ok (node key value null null)
  binary_tree_insert (node k v left right) key value = elim (ltb key k) [
    | true ↦ do left' ← binary_tree_insert left key value; ok (node k v left' right)
    | false ↦ elim (ltb k key) [
      | true ↦ do right' ← binary_tree_insert right key value; ok (node k v left right')
      | false ↦ fail Fault.aborted
    ]
  ]

  -- `some v` is `EXIT_SUCCESS` with `v` in `*value`, `none` is `EXIT_FAILURE`.
  unfoldable pub binary_tree_lookup : Tree V → ℕ → Option V
  binary_tree_lookup null key = none
  binary_tree_lookup (node k v left right) key = elim (k == key) [
    | true ↦ some v
    | false ↦ elim (ltb key k) [
      | true ↦ binary_tree_lookup left key
      | false ↦ binary_tree_lookup right key
    ]
  ]
