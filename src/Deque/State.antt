-- ===== src/Deque/State.antt =====
-- detail-dev/deque.hpp: the states of a deque. It is stable with all links in place, or a push at one
-- end has moved the anchor and the link back to the new node may be missing.
use zwq_repos.Prelude.{
  ℕ, ◌≡◌, ◌≢◌, refl, ap, sym, ◌∙◌, Bool, true, false, ◌||◌, List, [], ◌∷◌, ◌++◌, reverse, arith,
  has, IsDistinct,
}
use mathlib.Core.List.{reverse-cons}
use zwq_repos.Deque.{stable, lpush, rpush, Node, Deque}
use zwq_repos.Deque.Links.{
  Follows, Followed, Chain, BackChain, first_or, last_or, first_or-reverse, last_or-reverse,
  has-reverse, IsDistinct-reverse, Chain-reverse, BackChain-reverse,
}
use zwq_repos.Deque.Mirror.{mirror, settled_left}

abbrev pub right_of : {T : Type 0} → (ℕ → Node T) → ℕ → ℕ
right_of nodes j = (nodes j).right.ptr

abbrev pub left_of : {T : Type 0} → (ℕ → Node T) → ℕ → ℕ
left_of nodes j = (nodes j).left.ptr

abbrev pub values : {T : Type 0} → (ℕ → Node T) → List ℕ → List T
values nodes [] = []
values nodes (x ∷ xs) = (nodes x).data_ ∷ values nodes xs

pub Follows-frame :
    (f g : ℕ → ℕ) (x : ℕ) (xs : List ℕ)
    → Follows f x xs
    → ((j : ℕ) → has j (x ∷ xs) ≡ true → g j ≡ f j)
    → Follows g x xs
Follows-frame f g x [] h same = tt
Follows-frame f g x (y ∷ r) h same =
    (same x (ground arith) ∙ h.0, Follows-frame f g y r h.1 (λ j m. same j (ground arith)))

pub Followed-frame :
    (f g : ℕ → ℕ) (x : ℕ) (xs : List ℕ)
    → Followed f x xs
    → ((j : ℕ) → has j xs ≡ true → g j ≡ f j)
    → Followed g x xs
Followed-frame f g x [] h same = tt
Followed-frame f g x (y ∷ r) h same =
    (same y (ground arith) ∙ h.0, Followed-frame f g y r h.1 (λ j m. same j (ground arith)))

pub Chain-frame :
    (f g : ℕ → ℕ) (xs : List ℕ) → Chain f xs → ((j : ℕ) → has j xs ≡ true → g j ≡ f j) → Chain g xs
Chain-frame f g [] h same = tt
Chain-frame f g (x ∷ r) h same = Follows-frame f g x r h same

pub BackChain-frame :
    (f g : ℕ → ℕ) (xs : List ℕ)
    → BackChain f xs
    → ((j : ℕ) → has j xs ≡ true → g j ≡ f j)
    → BackChain g xs
BackChain-frame f g [] h same = tt
BackChain-frame f g (x ∷ r) h same = Followed-frame f g x r h (λ j m. same j (ground arith))

pub values-frame :
    {T : Type 0} (nodes nodes' : ℕ → Node T) (xs : List ℕ)
    → ((j : ℕ) → has j xs ≡ true → (nodes' j).data_ ≡ (nodes j).data_)
    → values nodes' xs ≡ values nodes xs
values-frame nodes nodes' [] same = refl
values-frame nodes nodes' (x ∷ xs) same =
    rw (same x (ground arith), values-frame nodes nodes' xs (λ j m. same j (ground arith))) refl

values-append :
    {T : Type 0} (nodes : ℕ → Node T) (xs ys : List ℕ)
    → values nodes (xs ++ ys) ≡ values nodes xs ++ values nodes ys
values-append nodes [] ys = refl
values-append nodes (x ∷ xs) ys = ap (λ l. (nodes x).data_ ∷ l) (values-append nodes xs ys)

values-reverse :
    {T : Type 0} (nodes : ℕ → Node T) (xs : List ℕ)
    → values nodes (reverse xs) ≡ reverse (values nodes xs)
values-reverse nodes [] = refl
values-reverse nodes (x ∷ xs) =
    rw (reverse-cons x xs, reverse-cons (nodes x).data_ (values nodes xs))
      (values-append nodes (reverse xs) (x ∷ [])
        ∙ ap (λ l. l ++ (nodes x).data_ ∷ []) (values-reverse nodes xs))

module _ {P T : Type 0} (in_use : P → ℕ → Bool) where
  -- The nodes `xs` from left to right hold the values `vs`. With those of `loose`, which the deque
  -- does not link, they are the nodes that the pool has given out.
  pub record Layout (loose : List ℕ) (s : Deque P T) (xs : List ℕ) (vs : List T) : Type 0 where
    pub nonnull : has 0 xs ≡ false
    pub distinct : IsDistinct xs
    pub apart : (j : ℕ) → has j loose ≡ true → has j xs ≡ false
    pub owned : (j : ℕ) → in_use s.pool j ≡ (has j loose || has j xs)
    pub leftmost : s.anchor.left ≡ first_or 0 xs
    pub rightmost : s.anchor.right ≡ last_or 0 xs
    pub holds : values s.nodes xs ≡ vs

  pub record Stable (loose : List ℕ) (s : Deque P T) (xs : List ℕ) (vs : List T) : Type 0 where
    pub layout : Layout loose s xs vs
    pub status : s.anchor.status ≡ stable
    pub rights : Chain (right_of s.nodes) xs
    pub lefts : BackChain (left_of s.nodes) xs

  -- A push of `x` to the left of `y` may lack the link from `y` to `x`.
  pub record Pending (loose : List ℕ) (s : Deque P T) (x y : ℕ) (r : List ℕ) (vs : List T)
      : Type 0 where
    pub layout : Layout loose s (x ∷ y ∷ r) vs
    pub rights : Chain (right_of s.nodes) (x ∷ y ∷ r)
    pub lefts : BackChain (left_of s.nodes) (y ∷ r)

  pub data Sound (loose : List ℕ) (s : Deque P T) (vs : List T) : Type 0 where
    is_settled : (xs : List ℕ) → Stable loose s xs vs → Sound loose s vs
    left_pending :
        (x y : ℕ) (r : List ℕ)
        → s.anchor.status ≡ lpush
        → Pending loose s x y r vs
        → Sound loose s vs
    right_pending :
        (x y : ℕ) (r : List ℕ)
        → s.anchor.status ≡ rpush
        → Pending loose (mirror s) x y r (reverse vs)
        → Sound loose s vs

  pub Stable-mirror :
      (loose : List ℕ) (s : Deque P T) (xs : List ℕ) (vs : List T)
      → Stable loose s xs vs
      → Stable loose (mirror s) (reverse xs) (reverse vs)
  Stable-mirror loose s xs vs h = record {
    layout = record {
      nonnull = has-reverse 0 xs ∙ h.layout.nonnull;
      distinct = IsDistinct-reverse xs h.layout.distinct;
      apart = λ j m. has-reverse j xs ∙ h.layout.apart j m;
      owned = λ j. rw (has-reverse j xs) (h.layout.owned j);
      leftmost = h.layout.rightmost ∙ sym (first_or-reverse 0 xs);
      rightmost = h.layout.leftmost ∙ sym (last_or-reverse 0 xs);
      holds =
          values-frame s.nodes (mirror s).nodes (reverse xs) (λ j m. refl)
          ∙ values-reverse s.nodes xs
          ∙ ap reverse h.layout.holds;
    };
    status = rw (h.status) refl;
    rights = Chain-reverse (left_of s.nodes) xs h.lefts;
    lefts = BackChain-reverse (right_of s.nodes) xs h.rights;
  }

module _ {P T : Type 0} where
  -- Other links and other values than the missing link stay as they are.
  pub settled_left_nodes :
      (s : Deque P T) (x y : ℕ)
      → s.anchor.left ≡ x
      → right_of s.nodes x ≡ y
      → ((settled_left s).nodes y).left.ptr ≡ x
        × ((j : ℕ) → j ≢ y → (settled_left s).nodes j ≡ s.nodes j)
        × ((j : ℕ) → right_of (settled_left s).nodes j ≡ right_of s.nodes j)
        × ((j : ℕ) → ((settled_left s).nodes j).data_ ≡ (s.nodes j).data_)
  settled_left_nodes s x y ex ey =
      rw (ex, ey) (ground arith, λ j ne. ground arith, λ j. ground arith, λ j. ground arith)
