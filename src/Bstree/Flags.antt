-- ===== src/Bstree/Flags.antt =====
-- utility/bstree.hpp: what becomes of the flags.
use zwq_repos.Prelude.{ℕ, zero, suc, ◌+◌, ◌<◌, ◌≡◌, ◌≢◌, refl, ap, ◌∙◌, true, false, some, arith}
use zwq_repos.Bstree.{
  Var, datum, new_entity, Heap, SearchResult, helpinsert, insert_found, insert, lookup, lookup_loop,
  equalexp,
}

-- No entity points at a flag that is not there yet.
abbrev pub IsAllocated : Heap → Type 0
IsAllocated h = (p : ℕ) → (h.entities p).update < h.next

-- `helpinsert` leaves the flag pointer of every entity as it was: it allocates the flag that it
-- expects, so its last exchange fails and no flag is ever made clean.
pub helpinsert-update :
    (r p : ℕ) (h : Heap)
    → IsAllocated h
    → ((helpinsert r h).entities p).update ≡ (h.entities p).update
unfolding helpinsert
helpinsert-update r p h alloc = ground (arith, alloc (h.infos r).parent)

-- Every pointer of an entity, of a flag's record and of the root leads to something allocated.
pub record IsClosed (h : Heap) : Type 0 where
  pub root : h.root < h.next
  pub left : (p : ℕ) → p < h.next → (h.entities p).left < h.next
  pub right : (p : ℕ) → p < h.next → (h.entities p).right < h.next
  pub update : IsAllocated h
  pub parent : (r : ℕ) → (h.infos r).parent < h.next

-- The insertion of record `r` is over: its leaf hangs below its parent no more.
pub record IsStale (r : ℕ) (h : Heap) : Type 0 where
  pub not_left : (h.entities (h.infos r).parent).left ≢ (h.infos r).leaf
  pub not_right : (h.entities (h.infos r).parent).right ≢ (h.infos r).leaf

helpinsert-IsStale :
    (r : ℕ) (h : Heap)
    → IsStale r h
    → (h.entities (h.infos r).parent).update < h.next
    → ((helpinsert r h).entities ≡ h.entities) × ((helpinsert r h).root ≡ h.root)
unfolding helpinsert
helpinsert-IsStale r h s lt = (ground arith, ground arith)

-- A search depends on the entities alone that are allocated.
lookup_loop-frame :
    (n : ℕ) (k : Var) (self : ℕ) (g h : Heap)
    → IsClosed h
    → ((p : ℕ) → p < h.next → g.entities p ≡ h.entities p)
    → self < h.next
    → lookup_loop n k self g ≡ lookup_loop n k self h
unfolding lookup_loop
lookup_loop-frame zero k self g h c same lt = refl
lookup_loop-frame (suc n) k self g h c same lt =
    let l = (h.entities self).left in
    let r = (h.entities self).right in
    ground (
      arith,
      same self,
      same l,
      same r,
      c.left self,
      c.right self,
      lookup_loop-frame n k l g h c same,
      lookup_loop-frame n k r g h c same,
    )

pub lookup-frame :
    (n : ℕ) (k : Var) (g h : Heap)
    → IsClosed h
    → ((p : ℕ) → p < h.next → g.entities p ≡ h.entities p)
    → g.root ≡ h.root
    → lookup n k g ≡ lookup n k h
unfolding lookup
lookup-frame n k g h c same e =
    ap (λ root. lookup_loop n k root g) e ∙ lookup_loop-frame n k h.root g h c same c.root

-- `lookup` is its loop from the root.
lookup_loop_of_lookup :
    (n : ℕ) (k : Var) (h : Heap) {s : SearchResult}
    → lookup n k h ≡ some s
    → lookup_loop n k h.root h ≡ some s
unfolding lookup
lookup_loop_of_lookup n k h e = e

lookup_loop-pupdate :
    (n : ℕ) (k : Var) (self : ℕ) (h : Heap) (s : SearchResult)
    → IsClosed h
    → self < h.next
    → lookup_loop n k self h ≡ some s
    → (s.pupdate ≡ (h.entities s.parent).update) × (s.self < h.next)
unfolding lookup_loop
lookup_loop-pupdate zero k self h s c lt e = absurd (ground arith)
lookup_loop-pupdate (suc n) k self h s c lt e =
    let a = (h.entities self).left in
    let b = (h.entities self).right in
    ground (
      arith,
      c.left self,
      c.right self,
      lookup_loop-pupdate n k a h s c,
      lookup_loop-pupdate n k b h s c,
    )

-- The tree of `h` with a new entity that nothing points at yet.
abbrev pub with_entity : ℕ → Heap → Heap
with_entity d h = (new_entity (datum d) true 0 0 h).1

insert_found_dirty :
    (others : Heap → Heap) (d n : ℕ) (s : SearchResult) (h : Heap)
    → equalexp (h.entities s.self).key (datum d) ≡ false
    → (h.flags s.pupdate).is_dirty ≡ true
    → insert_found others d n s h ≡ (true, helpinsert (h.flags s.pupdate).info h)
unfolding insert_found
insert_found_dirty others d n s h new dirty = rw (new, dirty)

with_entity-entities :
    (d : ℕ) (h : Heap) (p : ℕ) → p < h.next → (with_entity d h).entities p ≡ h.entities p
with_entity-entities d h p lt = ground arith

with_entity-flags : (d : ℕ) (h : Heap) (p : ℕ) → p < h.next → (with_entity d h).flags p ≡ h.flags p
with_entity-flags d h p lt = ground arith

with_entity-IsStale : (d r : ℕ) (h : Heap) → IsClosed h → IsStale r h → IsStale r (with_entity d h)
with_entity-IsStale d r h c stale =
    let same = with_entity-entities d h (h.infos r).parent (c.parent r) in
    record { not_left = rw same stale.not_left; not_right = rw same stale.not_right }

-- `helpinsert` of a record that is over, after the new entity was allocated.
helpinsert-with_entity :
    (d r : ℕ) (h : Heap)
    → IsClosed h
    → IsStale r h
    → ((p : ℕ) → p < h.next → (helpinsert r (with_entity d h)).entities p ≡ h.entities p)
      × ((helpinsert r (with_entity d h)).root ≡ h.root)
helpinsert-with_entity d r h c stale =
    let parent = (h.infos r).parent in
    let same = with_entity-entities d h parent (c.parent r) in
    let bound : ((with_entity d h).entities parent).update < (with_entity d h).next =
      rw same (omega (arith, c.update parent)) in
    let fixed = helpinsert-IsStale r (with_entity d h) (with_entity-IsStale d r h c stale) bound in
    (λ p lt. rw fixed.0 (with_entity-entities d h p lt), fixed.1)

-- An insertion whose search ends below a parent with a dirty flag, where the insertion recorded in
-- the flag is already over, returns true for a key that is not there, and every later search, for
-- any key, finds what it found before: the key is not inserted.
pub insert_lost :
    (fuel : ℕ) (others : Heap → Heap) (d : ℕ) (s : SearchResult) (h : Heap)
    → IsClosed h
    → lookup fuel (datum d) h ≡ some s
    → equalexp (h.entities s.self).key (datum d) ≡ false
    → (h.flags s.pupdate).is_dirty ≡ true
    → IsStale (h.flags s.pupdate).info h
    → (h' : Heap) × (insert fuel others d h ≡ some (true, h'))
      × ((n : ℕ) (k : Var) → lookup n k h' ≡ lookup n k h)
unfolding insert
insert_lost fuel others d s h c found new dirty stale =
    let g = with_entity d h in
    let r = (h.flags s.pupdate).info in
    let (at_parent, below) =
      lookup_loop-pupdate fuel (datum d) h.root h s c c.root
        (lookup_loop_of_lookup fuel (datum d) h found) in
    let flagged : s.pupdate < h.next = rw at_parent (c.update s.parent) in
    let (kept, root) = helpinsert-with_entity d r h c stale in
    let found' =
      lookup-frame fuel (datum d) g h c (λ p lt. with_entity-entities d h p lt) refl ∙ found in
    let same_self = with_entity-entities d h s.self below in
    let same_flag = with_entity-flags d h s.pupdate flagged in
    let step =
      insert_found_dirty others d (h.next + 1) s g (rw same_self new) (rw same_flag dirty) in
    (
      helpinsert r g,
      rw (found', insert) (ap some (step ∙ ap (λ f. (true, helpinsert f.info g)) same_flag)),
      λ n k. lookup-frame n k (helpinsert r g) h c kept root,
    )
