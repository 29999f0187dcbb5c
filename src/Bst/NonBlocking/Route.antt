-- ===== src/Bst/NonBlocking/Route.antt =====
-- BST/NonBlockingBST.cpp: the way of a key through the tree.
use zwq_repos.Prelude.{ℕ, ◌≡◌, ◌⊎◌, inl, inr, refl, sym, subst, Bool, true, false, arith}
use zwq_repos.Bst.NonBlocking.{Heap, child, root}

-- From the node `a` the key leads to the node `b`.
pub data Route (h : Heap) (k : ℕ) : ℕ → ℕ → Type 0 where
  arrived : (a : ℕ) → Route h k a a
  down : (a : ℕ) {b : ℕ} → h.is_leaf a ≡ false → Route h k (child h a k) b → Route h k a b

-- The key is in the tree: it leads from the root to a leaf that has it.
abbrev pub Contains : Heap → ℕ → Type 0
Contains h k = (l : ℕ) × Route h k root l × (h.is_leaf l ≡ true) × (h.key l ≡ k)

module _ {h : Heap} {k : ℕ} where
  pub Route-child : {a b : ℕ} → Route h k a b → h.is_leaf b ≡ false → Route h k a (child h b k)
  Route-child (arrived a) e = down a e (arrived (child h a k))
  Route-child (down a e' r) e = down a e' (Route-child r e)

  pub Route-append : {a b c : ℕ} → Route h k a b → Route h k b c → Route h k a c
  Route-append (arrived a) q = q
  Route-append (down a e r) q = down a e (Route-append r q)

  -- A key leads to one leaf.
  pub Route-unique :
      {a l l' : ℕ}
      → Route h k a l
      → Route h k a l'
      → h.is_leaf l ≡ true
      → h.is_leaf l' ≡ true
      → l ≡ l'
  Route-unique (arrived a) (arrived b) e e' = refl
  Route-unique (arrived a) (down b inner r) e e' = absurd (ground arith)
  Route-unique (down a inner r) (arrived b) e e' = absurd (ground arith)
  Route-unique (down a inner r) (down b inner' r') e e' = Route-unique r r' e e'

  -- A way from an internal node to a leaf goes on from its child.
  pub Route-rest :
      {a l : ℕ}
      → Route h k a l
      → h.is_leaf a ≡ false
      → h.is_leaf l ≡ true
      → Route h k (child h a k) l
  Route-rest (arrived a) e e' = absurd (ground arith)
  Route-rest (down a inner r) e e' = r

  -- A way to an internal node lasts where internal nodes stay and only leaves are replaced below
  -- the nodes of a set.
  pub Route-lasts :
      (h' : Heap) (among : ℕ → Bool)
      → ((a : ℕ)
          → among a ≡ true
          → h.is_leaf a ≡ false
          → (h'.is_leaf a ≡ false)
            × (among (child h a k) ≡ true)
            × ((child h' a k ≡ child h a k) ⊎ (h.is_leaf (child h a k) ≡ true)))
      → {a b : ℕ} → among a ≡ true
      → Route h k a b
      → h.is_leaf b ≡ false
      → Route h' k a b
  Route-lasts h' among keeps m (arrived a) e = arrived a
  Route-lasts h' among keeps m (down a {b} inner r) e =
      let (inner', m', same) = keeps a m inner in
      elim same [
        | inl eq ↦
            down a inner' (subst (λ c. Route h' k c b) (sym eq) (Route-lasts h' among keeps m' r e))
        | inr is_leaf ↦ absurd (stuck r is_leaf)
      ]
    where
      stuck : {c : ℕ} → Route h k c b → h.is_leaf c ≡ true → ⊥
      stuck (arrived c) e' = ground arith
      stuck (down c inner' r') e' = ground arith

  -- A way through nodes of a set whose children stay.
  pub Route-same :
      (h' : Heap) (among : ℕ → Bool)
      → ((a : ℕ)
          → among a ≡ true
          → h.is_leaf a ≡ false
          → (h'.is_leaf a ≡ false) × (among (child h a k) ≡ true) × (child h' a k ≡ child h a k))
      → {a b : ℕ} → among a ≡ true
      → Route h k a b
      → (among b ≡ true) × Route h' k a b
  Route-same h' among keeps m (arrived a) = (m, arrived a)
  Route-same h' among keeps m (down a {b} inner r) =
      let (inner', m', eq) = keeps a m inner in
      let (mb, r') = Route-same h' among keeps m' r in
      (mb, down a inner' (subst (λ c. Route h' k c b) (sym eq) r'))
