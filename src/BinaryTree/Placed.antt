-- ===== src/BinaryTree/Placed.antt =====
-- `binary_tree_insert` as a pure function on the keys that are not there yet.
use liblink.Base.{
  ℕ, ◌≡◌, refl, sym, ◌∙◌, inl, inr, none, some, Option-cases, arith, ok, ok-injective, fail, Fault,
  ltb, if◌then◌else◌,
}
use liblink.BinaryTree.{Tree, null, node, binary_tree_insert, binary_tree_lookup}

module _ {ℓ} {V : Type ℓ} where
  unfoldable pub placed : Tree V → ℕ → V → Tree V
  placed null q w = node q w null null
  placed (node k v l r) q w =
      if ltb q k then node k v (placed l q w) r else node k v l (placed r q w)

  pub insert-eq-placed :
      (t : Tree V) (q : ℕ) (w : V)
      → binary_tree_lookup t q ≡ none
      → binary_tree_insert t q w ≡ ok (placed t q w)
  unfolding binary_tree_insert binary_tree_lookup placed
  insert-eq-placed null q w fresh = refl
  insert-eq-placed (node k v l r) q w fresh =
      ground (arith, insert-eq-placed l q w, insert-eq-placed r q w)

  -- The insertion of a key that `binary_tree_lookup` finds stops the process.
  pub insert_duplicate :
      (t : Tree V) (q : ℕ) (w x : V)
      → binary_tree_lookup t q ≡ some x
      → binary_tree_insert t q w ≡ fail Fault.aborted
  unfolding binary_tree_insert binary_tree_lookup
  insert_duplicate null q w x found = absurd (ground arith)
  insert_duplicate (node k v l r) q w x found =
      ground (arith, insert_duplicate l q w x, insert_duplicate r q w x)

  -- Where an insertion returns, the key was new and the tree is the old one with it placed.
  pub insert-inv :
      (t t' : Tree V) (q : ℕ) (w : V)
      → binary_tree_insert t q w ≡ ok t'
      → (binary_tree_lookup t q ≡ none) × (placed t q w ≡ t')
  insert-inv t t' q w e = elim (Option-cases (binary_tree_lookup t q)) [
    | inl fresh ↦ (fresh, ok-injective (sym (insert-eq-placed t q w fresh) ∙ e))
    | inr (x, found) ↦ absurd (cc (insert_duplicate t q w x found))
  ]
