-- ===== src/Bst/Tree/Laws.antt =====
-- BST/SequentialBST.cpp and BST/BSTclass.cpp: the tree is a sorted set of keys.
use zwq_repos.Prelude.{
  ℕ, ◌+◌, ◌^◌, ◌≤◌, ◌<◌, ◌≡◌, refl, ap, ◌∙◌, sym, false, ◌||◌, List, [], ◌∷◌, ◌++◌, ◌==◌, ltb,
  arith, has, if◌then◌else◌, Bool-cases, inl, inr,
}
use mathlib.Core.Bool.{or_assoc}
use zwq_repos.Bst.Tree.{Tree, leaf, node, insert, split_leaf, contains, preorder}
use zwq_repos.Bst.Tree.Order.{
  Within, insert_node, insert_leaf, contains_node, contains_leaf, insert-Within,
}

-- Insertion into an ascending list without repetitions.
pub insert_sorted : ℕ → List ℕ → List ℕ
insert_sorted k [] = k ∷ []
insert_sorted k (x ∷ xs) =
    let rest = insert_sorted k xs in
    if k == x then x ∷ xs else if ltb k x then k ∷ x ∷ xs else x ∷ rest

abbrev pub AllFrom : ℕ → List ℕ → Type 0
AllFrom lo [] = Unit
AllFrom lo (x ∷ xs) = (lo ≤ x) × AllFrom lo xs

abbrev pub AllBelow : ℕ → List ℕ → Type 0
AllBelow hi [] = Unit
AllBelow hi (x ∷ xs) = (x < hi) × AllBelow hi xs

-- Strictly ascending.
abbrev pub IsAscending : List ℕ → Type 0
IsAscending [] = Unit
IsAscending (x ∷ xs) = AllFrom (x + 1) xs × IsAscending xs

AllFrom-append :
    (lo mid : ℕ) (xs ys : List ℕ)
    → lo ≤ mid
    → AllFrom lo xs
    → AllFrom mid ys
    → AllFrom lo (xs ++ ys)
AllFrom-append lo mid [] [] h a b = tt
AllFrom-append lo mid [] (y ∷ ys) h a b = (omega arith, AllFrom-append lo mid [] ys h a b.1)
AllFrom-append lo mid (x ∷ xs) ys h a b = (a.0, AllFrom-append lo mid xs ys h a.1 b)

AllBelow-append :
    (hi mid : ℕ) (xs ys : List ℕ)
    → mid ≤ hi
    → AllBelow mid xs
    → AllBelow hi ys
    → AllBelow hi (xs ++ ys)
AllBelow-append hi mid [] ys h a b = b
AllBelow-append hi mid (x ∷ xs) ys h a b =
    (omega (arith, a.0), AllBelow-append hi mid xs ys h a.1 b)

IsAscending-append :
    (mid : ℕ) (xs ys : List ℕ)
    → AllBelow mid xs
    → AllFrom mid ys
    → IsAscending xs
    → IsAscending ys
    → IsAscending (xs ++ ys)
IsAscending-append mid [] ys a b s t = t
IsAscending-append mid (x ∷ xs) ys a b s t = (
  AllFrom-append (x + 1) mid xs ys (omega (arith, a.0)) s.0 b,
  IsAscending-append mid xs ys a.1 b s.1 t,
)

-- The leaves of a tree in range: in range, and ascending.
pub preorder-Within :
    (lo hi : ℕ) (t : Tree)
    → Within lo hi t
    → AllFrom lo (preorder t) × AllBelow hi (preorder t) × IsAscending (preorder t)
unfolding preorder
preorder-Within lo hi (leaf d) w = ((w.0, tt), (w.1, tt), (tt, tt))
preorder-Within lo hi (node d l r) w =
    let (lf, lb, ls) = preorder-Within lo d l w.2 in
    let (rf, rb, rs) = preorder-Within d hi r w.3 in
    (
      AllFrom-append lo d (preorder l) (preorder r) w.0 lf rf,
      AllBelow-append hi d (preorder l) (preorder r) (omega (arith, w.1)) lb rb,
      IsAscending-append d (preorder l) (preorder r) lb rf ls rs,
    )

insert_sorted-append_left :
    (k d : ℕ) (xs ys : List ℕ)
    → k < d
    → AllFrom d ys
    → insert_sorted k (xs ++ ys) ≡ insert_sorted k xs ++ ys
unfolding insert_sorted
insert_sorted-append_left k d [] [] lt f = refl
insert_sorted-append_left k d [] (y ∷ ys) lt f = ground arith
insert_sorted-append_left k d (x ∷ xs) ys lt f = ground (arith, insert_sorted-append_left k d xs ys)

insert_sorted-append_right :
    (k d : ℕ) (xs ys : List ℕ)
    → d ≤ k
    → AllBelow d xs
    → insert_sorted k (xs ++ ys) ≡ xs ++ insert_sorted k ys
unfolding insert_sorted
insert_sorted-append_right k d [] ys le b = refl
insert_sorted-append_right k d (x ∷ xs) ys le b =
    ground (arith, insert_sorted-append_right k d xs ys)

preorder-insert_sorted :
    (k lo hi : ℕ) (t : Tree) → Within lo hi t → preorder (insert k t) ≡ insert_sorted k (preorder t)
unfolding preorder split_leaf insert_sorted
preorder-insert_sorted k lo hi (leaf d) w = rw (insert_leaf k d) (ground arith)
preorder-insert_sorted k lo hi (node d l r) w =
    let (lf, lb, ls) = preorder-Within lo d l w.2 in
    let (rf, rb, rs) = preorder-Within d hi r w.3 in
    rw (insert_node k d l r) (elim (Bool-cases (ltb k d)) [
      | inl e ↦ rw e (
          ap (λ xs. xs ++ preorder r) (preorder-insert_sorted k lo d l w.2)
          ∙ sym (insert_sorted-append_left k d (preorder l) (preorder r) (ground arith) rf))
      | inr e ↦ rw e (
          ap (λ xs. preorder l ++ xs) (preorder-insert_sorted k d hi r w.3)
          ∙ sym (insert_sorted-append_right k d (preorder l) (preorder r) (ground arith) lb))
    ])

-- On a tree in order, `insert` keeps the order, and the keys that `preorder` prints are those from
-- before with the new key put in its place, if it was not there; they are strictly ascending.
pub insert_refines :
    (k : ℕ) (t : Tree)
    → k < 2 ^ 32
    → Within 0 (2 ^ 32) t
    → Within 0 (2 ^ 32) (insert k t)
      × (preorder (insert k t) ≡ insert_sorted k (preorder t))
      × IsAscending (preorder (insert k t))
insert_refines k t lt w =
    let kept = insert-Within k 0 (2 ^ 32) t (omega arith) lt w in
    (
      kept,
      preorder-insert_sorted k 0 (2 ^ 32) t w,
      (preorder-Within 0 (2 ^ 32) (insert k t) kept).2,
    )

has-append : (k : ℕ) (xs ys : List ℕ) → has k (xs ++ ys) ≡ (has k xs || has k ys)
has-append k [] ys = refl
has-append k (x ∷ xs) ys = rw (has-append k xs ys, or_assoc)

has-AllFrom : (k d : ℕ) (xs : List ℕ) → k < d → AllFrom d xs → has k xs ≡ false
has-AllFrom k d [] lt f = refl
has-AllFrom k d (x ∷ xs) lt f = ground (arith, has-AllFrom k d xs)

has-AllBelow : (k d : ℕ) (xs : List ℕ) → d ≤ k → AllBelow d xs → has k xs ≡ false
has-AllBelow k d [] le b = refl
has-AllBelow k d (x ∷ xs) le b = ground (arith, has-AllBelow k d xs)

-- On a tree in order, the search for a key ends at a leaf with that key exactly when `preorder`
-- prints it.
pub contains-preorder :
    (k lo hi : ℕ) (t : Tree) → Within lo hi t → contains k t ≡ has k (preorder t)
unfolding preorder
contains-preorder k lo hi (leaf d) w = rw (contains_leaf k d) (ground arith)
contains-preorder k lo hi (node d l r) w =
    let (lf, lb, ls) = preorder-Within lo d l w.2 in
    let (rf, rb, rs) = preorder-Within d hi r w.3 in
    ground (
      arith,
      contains_node k d l r,
      contains-preorder k lo d l w.2,
      contains-preorder k d hi r w.3,
      has-append k (preorder l) (preorder r),
      has-AllFrom k d (preorder r),
      has-AllBelow k d (preorder l),
    )

has-insert_sorted : (j k : ℕ) (xs : List ℕ) → has j (insert_sorted k xs) ≡ ((j == k) || has j xs)
unfolding insert_sorted
has-insert_sorted j k [] = refl
has-insert_sorted j k (x ∷ xs) = ground (arith, has-insert_sorted j k xs)

-- The tree after the insertions of a list of keys, in this order.
abbrev pub insert_all : List ℕ → Tree → Tree
insert_all [] t = t
insert_all (k ∷ ks) t = insert_all ks (insert k t)

abbrev pub AllKeys : List ℕ → Type 0
AllKeys = AllBelow (2 ^ 32)

-- After any insertions into a tree in order, a search finds exactly the keys that were inserted and
-- those that it found before.
pub contains-insert_all :
    (j : ℕ) (ks : List ℕ) (t : Tree)
    → AllKeys ks
    → Within 0 (2 ^ 32) t
    → contains j (insert_all ks t) ≡ (has j ks || contains j t)
contains-insert_all j [] t b w = refl
contains-insert_all j (k ∷ ks) t b w =
    let (kept, keys, _) = insert_refines k t b.0 w in
    ground (
      arith,
      contains-insert_all j ks (insert k t) b.1 kept,
      contains-preorder j 0 (2 ^ 32) (insert k t) kept,
      contains-preorder j 0 (2 ^ 32) t w,
      has-insert_sorted j k (preorder t),
    )
