-- ===== src/Bstree/Insert.antt =====
-- utility/bstree.hpp: an insertion at a clean parent, with no other thread in between.
use zwq_repos.Prelude.{ℕ, ◌≡◌, Bool, true, false}
use zwq_repos.Bstree.{
  Var, datum, Heap, Entity, SearchResult, lessexp, max, new_info, new_flag, cas_update,
}

-- Entity `e` with `child` on the side that a key of `child` belongs to.
abbrev pub with_child : Bool → ℕ → Entity → Entity
with_child true child e = record e { left = child }
with_child false child e = record e { right = child }

abbrev pub child : Bool → Entity → ℕ
child true e = e.left
child false e = e.right

-- What `make_internal` adds: a copy of the leaf, and an internal node whose key is the greater of
-- the two and whose children are the new leaf and the copy, the lesser key on the left.
pub record IsSplit (d n : ℕ) (self_key : Var) (copy m : ℕ) (h : Heap) : Type 0 where
  pub copied : ((h.entities copy).key ≡ self_key) × ((h.entities copy).is_leaf ≡ true)
  pub inner : ((h.entities m).key ≡ max (datum d) self_key) × ((h.entities m).is_leaf ≡ false)
  pub less :
      lessexp (datum d) self_key ≡ true → ((h.entities m).left ≡ n) × ((h.entities m).right ≡ copy)
  pub not_less :
      lessexp (datum d) self_key ≡ false → ((h.entities m).left ≡ copy) × ((h.entities m).right ≡ n)

-- The heap after the exchange that makes the parent dirty.
abbrev armed : ℕ → SearchResult → Heap → Heap
armed m s h =
    let (record_, h3) = new_info s.parent s.self m h in
    let (dirty, h4) = new_flag true record_ h3 in (cas_update s.parent s.pupdate dirty h4).1
