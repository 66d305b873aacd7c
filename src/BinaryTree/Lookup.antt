-- ===== src/BinaryTree/Lookup.antt =====
-- The tree as a finite map: what `binary_tree_lookup` answers, before and after an insertion.
use mathlib.Core.Path.{subst}
use liblink.Base.{ℕ, ◌<◌, ◌≡◌, ◌⊎◌, ◌↔◌, inl, inr, none, some, arith, ok, ◌==◌, if◌then◌else◌}
use liblink.BinaryTree.{Tree, null, node, binary_tree_insert, binary_tree_lookup}
use liblink.BinaryTree.Placed.{placed, insert-eq-placed}
use liblink.BinaryTree.Order.{All, IsOrdered}

module _ {ℓ} {V : Type ℓ} where
  lookup-placed :
      (t : Tree V) (q p : ℕ) (w : V)
      → binary_tree_lookup t q ≡ none
      → binary_tree_lookup (placed t q w) p ≡ (if p == q then some w else binary_tree_lookup t p)
  unfolding placed binary_tree_lookup
  lookup-placed null q p w fresh = ground arith
  lookup-placed (node k v l r) q p w fresh =
      ground (arith, lookup-placed l q p w, lookup-placed r q p w)

  -- A key that `binary_tree_lookup` does not find is inserted: it then reads its value, and every
  -- other key reads as before.
  pub lookup-insert :
      (t : Tree V) (q : ℕ) (w : V)
      → binary_tree_lookup t q ≡ none
      → (t' : Tree V) × (binary_tree_insert t q w ≡ ok t')
        × ((p : ℕ) → binary_tree_lookup t' p ≡ (if p == q then some w else binary_tree_lookup t p))
  lookup-insert t q w fresh =
      (placed t q w, insert-eq-placed t q w fresh, λ p. lookup-placed t q p w fresh)

module _ {V : Type 0} where
  -- The entry `q`, `v` stands somewhere in the tree.
  abbrev pub Has : ℕ → V → Tree V → Type 0
  Has q v null = ⊥
  Has q v (node k x l r) = ((k ≡ q) × (x ≡ v)) ⊎ (Has q v l ⊎ Has q v r)

  All-Has : (P : ℕ → Type 0) (t : Tree V) (q : ℕ) (v : V) → All P t → Has q v t → P q
  All-Has P null q v a h = elim h [ ]
  All-Has P (node k x l r) q v a (inl (e, _)) = subst P e a.0
  All-Has P (node k x l r) q v a (inr (inl h)) = All-Has P l q v a.1 h
  All-Has P (node k x l r) q v a (inr (inr h)) = All-Has P r q v a.2 h

  Has-of_lookup : (t : Tree V) (q : ℕ) (v : V) → binary_tree_lookup t q ≡ some v → Has q v t
  unfolding binary_tree_lookup
  Has-of_lookup null q v e = absurd (cc)
  Has-of_lookup (node k x l r) q v e = ground (arith, Has-of_lookup l q v, Has-of_lookup r q v)

  lookup-of_Has :
      (t : Tree V) (q : ℕ) (v : V) → IsOrdered t → Has q v t → binary_tree_lookup t q ≡ some v
  unfolding binary_tree_lookup
  lookup-of_Has null q v o h = elim h [ ]
  lookup-of_Has (node k x l r) q v o (inl (e, e')) = ground arith
  lookup-of_Has (node k x l r) q v o (inr (inl h)) =
      ground (arith, All-Has (λ y. y < k) l q v o.0 h, lookup-of_Has l q v o.2 h)
  lookup-of_Has (node k x l r) q v o (inr (inr h)) =
      ground (arith, All-Has (λ y. k < y) r q v o.1 h, lookup-of_Has r q v o.3 h)

  -- In a search tree `binary_tree_lookup` finds a value exactly if the tree holds it under the key.
  pub lookup-Has :
      (t : Tree V) (q : ℕ) (v : V) → IsOrdered t → (binary_tree_lookup t q ≡ some v) ↔ Has q v t
  lookup-Has t q v o = (Has-of_lookup t q v, lookup-of_Has t q v o)
