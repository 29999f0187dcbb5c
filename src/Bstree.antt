-- ===== src/Bstree.antt =====
-- utility/bstree.hpp: the non-blocking tree over shared pointers. A shared pointer is the number of
-- the object that it shares, 0 for null; `cas_strong` compares these numbers, as the exchange of
-- `std::shared_ptr` compares the stored pointers. `dataType` is a type of numbers.
pub mod Compare
pub mod Flags
pub mod Insert
mod Examples
use zwq_repos.Prelude.{
  ℕ, zero, suc, ◌+◌, Bool, true, false, not, Option, none, some, ◌==◌, ltb, if◌then◌else◌,
}

-- `std::variant<U, Inf0<U>, Inf1<U>>`, read through its index and, at index 0, its datum.
pub data Var : Type 0 where
  datum : ℕ → Var
  inf0 inf1 : Var

abbrev pub index : Var → ℕ
index (datum d) = 0
index inf0 = 1
index inf1 = 2

abbrev pub value : Var → ℕ
value (datum d) = d
value inf0 = 0
value inf1 = 0

-- `__lessexp`
unfoldable pub lessexp : Var → Var → Bool
lessexp v1 v2 =
    if not (index v1 == index v2)
    then ltb (index v1) (index v2)
    else if 0 == index v1
    then ltb (value v1) (value v2)
    else false

-- `__equalexp`
unfoldable pub equalexp : Var → Var → Bool
equalexp v1 v2 =
    if not (index v1 == index v2)
    then false
    else if 0 == index v1
    then value v1 == value v2
    else true

-- `__greaterexp`
unfoldable pub greaterexp : Var → Var → Bool
greaterexp v1 v2 =
    if not (index v1 == index v2)
    then ltb (index v2) (index v1)
    else if 0 == index v1
    then ltb (value v2) (value v1)
    else false

-- `std::max` with `__lessexp`
abbrev pub max : Var → Var → Var
max a b = if lessexp a b then b else a

pub record UpdateFlag : Type 0 where
  pub is_dirty : Bool
  pub info : ℕ

-- `entity`, with the fields of its `treenode`
pub record Entity : Type 0 where
  pub key : Var
  pub is_leaf : Bool
  pub left : ℕ
  pub right : ℕ
  pub update : ℕ

pub record RelInfo : Type 0 where
  pub parent : ℕ
  pub leaf : ℕ
  pub subtree : ℕ

-- All objects, the next unused number, and the tree's `root`.
pub record Heap : Type 0 where
  pub entities : ℕ → Entity
  pub flags : ℕ → UpdateFlag
  pub infos : ℕ → RelInfo
  pub next : ℕ
  pub root : ℕ

abbrev pub at_put : {A : Type 0} → (ℕ → A) → ℕ → A → ℕ → A
at_put f p a q = if q == p then a else f q

abbrev pub flag : Bool → ℕ → UpdateFlag
flag b i = record { is_dirty = b; info = i }

-- `std::make_shared<updateflag>(b, i)`
abbrev pub new_flag : Bool → ℕ → Heap → ℕ × Heap
new_flag b i h = (h.next, record h { flags = at_put h.flags h.next (flag b i); next = h.next + 1 })

abbrev pub new_info : ℕ → ℕ → ℕ → Heap → ℕ × Heap
new_info p l s h = (
  h.next,
  record h {
    infos = at_put h.infos h.next (record { parent = p; leaf = l; subtree = s });
    next = h.next + 1;
  },
)

-- `std::make_shared<entity>(key, treenode(is_leaf, left, right))`: the default argument of
-- `treenode` makes a clean flag without a record.
abbrev pub new_entity : Var → Bool → ℕ → ℕ → Heap → ℕ × Heap
new_entity key is_leaf left right h =
    let (u, h1) = new_flag false 0 h in
    (
      h1.next,
      record h1 {
        entities =
            at_put h1.entities h1.next
              (record { key = key; is_leaf = is_leaf; left = left; right = right; update = u });
        next = h1.next + 1;
      },
    )

abbrev pub set_entity : ℕ → Entity → Heap → Heap
set_entity p e h = record h { entities = at_put h.entities p e }

-- The constructor. (The root is marked a leaf, which no code reads.)
unfoldable pub new_tree : Heap → Heap
new_tree h =
    let (rleft, h1) = new_entity inf0 true 0 0 h in
    let (rright, h2) = new_entity inf1 true 0 0 h1 in
    let (root, h3) = new_entity inf1 true rleft rright h2 in record h3 { root = root }

pub record SearchResult : Type 0 where
  pub parent : ℕ
  pub self : ℕ
  pub pupdate : ℕ

-- The rounds of the loop of `lookup`; `none` when it is still running after so many.
unfoldable pub lookup_loop : ℕ → Var → ℕ → Heap → Option SearchResult
lookup_loop zero k self h = none
lookup_loop (suc n) k self h =
    let e = h.entities self in
    let child = if lessexp k e.key then e.left else e.right in
    let rest = lookup_loop n k child h in
    if (h.entities child).is_leaf
    then some (record { parent = self; self = child; pupdate = e.update })
    else rest

unfoldable pub lookup : ℕ → Var → Heap → Option SearchResult
unfolding lookup_loop
lookup fuel k h = lookup_loop fuel k h.root h

-- `left.cas_strong(leaf, subtree)` or `right.cas_strong(leaf, subtree)` on the children of `p`
abbrev pub cas_child : Bool → ℕ → ℕ → ℕ → Heap → Heap
cas_child is_left p leaf subtree h =
    let e = h.entities p in
    if is_left
    then (if e.left == leaf then set_entity p (record e { left = subtree }) h else h)
    else (if e.right == leaf then set_entity p (record e { right = subtree }) h else h)

-- `node.update.cas_strong(expected, desired)` on entity `p`
abbrev pub cas_update : ℕ → ℕ → ℕ → Heap → Bool × Heap
cas_update p expected desired h =
    let e = h.entities p in
    if e.update == expected
    then (true, set_entity p (record e { update = desired }) h)
    else (false, h)

unfoldable pub helpinsert : ℕ → Heap → Heap
helpinsert record_ h =
    let (dirty, h1) = new_flag true record_ h in
    let (clean, h2) = new_flag false record_ h1 in
    let i = h2.infos record_ in
    let is_left = lessexp (h2.entities i.subtree).key (h2.entities i.parent).key in
    let h3 = cas_child is_left i.parent i.leaf i.subtree h2 in
    (cas_update i.parent dirty clean h3).1

-- The copy of the leaf that the search found, and the internal node above it and the new leaf.
unfoldable pub make_internal : ℕ → ℕ → ℕ → Heap → ℕ × Heap
make_internal d newentity self h =
    let self_key = (h.entities self).key in
    let (sibling, h1) = new_entity self_key true 0 0 h in
    let newer = lessexp (h1.entities newentity).key (h1.entities sibling).key in
    new_entity (max (datum d) self_key) false (if newer then newentity else sibling)
      (if newer then sibling else newentity) h1

-- The branch of `insert` whose search found a clean parent. `others` is what other threads do
-- before the exchange on the parent's flag; a failed exchange loads that flag.
unfoldable pub insert_clean : (Heap → Heap) → ℕ → ℕ → SearchResult → Heap → Heap
insert_clean others d newentity s h =
    let (newinternal, h2) = make_internal d newentity s.self h in
    let (record_, h3) = new_info s.parent s.self newinternal h2 in
    let (dirty, h4) = new_flag true record_ h3 in
    let (done, h5) = cas_update s.parent s.pupdate dirty (others h4) in
    helpinsert (if done then record_ else (h5.flags (h5.entities s.parent).update).info) h5

-- `insert` after its search. The loop's body ends in `return true`, so it runs once.
unfoldable pub insert_found : (Heap → Heap) → ℕ → ℕ → SearchResult → Heap → Bool × Heap
insert_found others d newentity s h =
    if equalexp (h.entities s.self).key (datum d)
    then (false, h)
    else if (h.flags s.pupdate).is_dirty
    then (true, helpinsert (h.flags s.pupdate).info h)
    else (true, insert_clean others d newentity s h)

-- `none` when the search is still running after `fuel` rounds.
unfoldable pub insert : ℕ → (Heap → Heap) → ℕ → Heap → Option (Bool × Heap)
insert fuel others d h =
    let (newentity, h1) = new_entity (datum d) true 0 0 h in
    elim (lookup fuel (datum d) h1) [
      | none ↦ none
      | some s ↦ some (insert_found others d newentity s h1)
    ]
