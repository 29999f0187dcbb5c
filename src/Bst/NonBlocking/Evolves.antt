-- ===== src/Bst/NonBlocking/Evolves.antt =====
-- BST/NonBlockingBST.cpp: what a step of one thread leaves to the others.
use zwq_repos.Prelude.{
  ℕ, ◌≤◌, ◌<◌, ◌≡◌, ◌≢◌, ◌⊎◌, inl, inr, refl, sym, ap, ◌∙◌, Bool, true, false, arith,
}
use zwq_repos.Bst.NonBlocking.{
  UpdateRecord, Heap, child, dirty, Thread, outside, at_node, at_child, found, helping, cleaning,
  returned,
}
use zwq_repos.Bst.NonBlocking.Route.{Contains}
use zwq_repos.Bst.NonBlocking.Invariant.{
  History, thread, unknown, finished, child_lo, child_hi, Leads, IsHeap, Seen, Mine, Found, Helps,
  IsThread,
}

pub record Evolves (i : ℕ) (g : History) (h : Heap) (g' : History) (h' : Heap) : Type 0 where
  pub next : h.next ≤ h'.next
  pub key : (a : ℕ) → a < h.next → h'.key a ≡ h.key a
  pub is_leaf : (a : ℕ) → a < h.next → h'.is_leaf a ≡ h.is_leaf a
  pub linked : (a : ℕ) → g.linked a ≡ true → g'.linked a ≡ true
  pub lo : (a : ℕ) → g.linked a ≡ true → g'.lo a ≡ g.lo a
  pub hi : (a : ℕ) → g.linked a ≡ true → g'.hi a ≡ g.hi a
  pub known : (o : ℕ) → g.stage o ≢ unknown → g'.stage o ≢ unknown
  pub op_key : (o : ℕ) → g.stage o ≢ unknown → g'.op_key o ≡ g.op_key o
  pub caller : (o : ℕ) → g.stage o ≢ unknown → g'.caller o ≡ g.caller o
  pub ends : (o : ℕ) → g.stage o ≡ finished → g'.stage o ≡ finished
  pub present : (k : ℕ) → Contains h k → Contains h' k
  pub update : (p : ℕ) → g.linked p ≡ true → (h'.update p ≡ h.update p) ⊎ ((h'.update p).info ≢ 0)
  pub dirt :
      (p x : ℕ) → g.linked p ≡ true → x < h.next → h'.update p ≡ dirty x → h.update p ≡ dirty x
  pub back :
      (p : ℕ) (u : UpdateRecord)
      → g.linked p ≡ true
      → u.is_dirty ≡ false
      → u.info < h.next
      → h'.update p ≡ u
      → (h.update p ≡ u) ⊎ (h.update p ≡ dirty u.info)
  pub still :
      (p k : ℕ)
      → g.linked p ≡ true
      → (h.update p).is_dirty ≡ false
      → h'.update p ≡ h.update p
      → child h' p k ≡ child h p k
  pub owned : (j a : ℕ) → j ≢ i → g.owner a ≡ thread j → g'.owner a ≡ thread j
  pub fresh :
      (j a : ℕ)
      → j ≢ i
      → g.owner a ≡ thread j
      → g.linked a ≡ false
      → a < h.next
      → h'.update a ≡ h.update a
  pub unlinked : (j a : ℕ) → j ≢ i → g.owner a ≡ thread j → g.linked a ≡ false → g'.linked a ≡ false

module _ {i : ℕ} {g : History} {h : Heap} {g' : History} {h' : Heap} (e : Evolves i g h g' h') where
  module _ (inv : IsHeap g h) where
    pub Leads-evolves : (k a : ℕ) → Leads g h k a → Leads g' h' k a
    Leads-evolves k a l =
        let old = (inv.node a l.linked).old in
        record {
          linked = e.linked a l.linked;
          inner = e.is_leaf a old ∙ l.inner;
          low = omega (arith, l.low, e.lo a l.linked);
          high = omega (arith, l.high, e.hi a l.linked);
        }

    pub Seen-evolves :
        (p : ℕ) (u : UpdateRecord) → g.linked p ≡ true → Seen g h p u → Seen g' h' p u
    Seen-evolves p u lp s = record {
      small = omega (arith, s.small, e.next);
      past = λ c d. s.past c (e.dirt p u.info lp s.small d);
      moved = elim (e.update p lp) [
        | inr nz ↦ inr nz
        | inl eq ↦ elim s.moved [
          | inl same ↦ inl (eq ∙ same)
          | inr nz ↦ inr (λ z. nz (sym (ap (λ (v : UpdateRecord). v.info) eq) ∙ z))
        ]
      ];
      known = λ d. e.known u.info (s.known d);
    }

    pub Mine-evolves : (j k n : ℕ) → j ≢ i → Mine g h j k n → Mine g' h' j k n
    Mine-evolves j k n ne m = record {
      old = omega (arith, m.old, e.next);
      owned = e.owned j n ne m.owned;
      unlinked = e.unlinked j n ne m.owned m.unlinked;
      is_leaf = e.is_leaf n m.old ∙ m.is_leaf;
      keyed = e.key n m.old ∙ m.keyed;
      fresh = e.fresh j n ne m.owned m.unlinked m.old ∙ m.fresh;
      in_range = m.in_range;
    }

    child_lo-evolves : (p k : ℕ) → g.linked p ≡ true → child_lo g' h' p k ≡ child_lo g h p k
    child_lo-evolves p k lp = rw (e.key p (inv.node p lp).old, e.lo p lp) refl

    child_hi-evolves : (p k : ℕ) → g.linked p ≡ true → child_hi g' h' p k ≡ child_hi g h p k
    child_hi-evolves p k lp = rw (e.key p (inv.node p lp).old, e.hi p lp) refl

    pub Found-evolves :
        (k p : ℕ) (u : UpdateRecord) (l : ℕ)
        → g.linked p ≡ true
        → Seen g h p u
        → Found g h k p u l
        → Found g' h' k p u l
    Found-evolves k p u l lp s f =
        let old = (inv.node l f.linked).old in
        record {
          linked = e.linked l f.linked;
          is_leaf = e.is_leaf l old ∙ f.is_leaf;
          low = e.lo l f.linked ∙ f.low ∙ sym (child_lo-evolves p k lp);
          high = e.hi l f.linked ∙ f.high ∙ sym (child_hi-evolves p k lp);
          present = λ same. e.present k (f.present (sym (e.key l old) ∙ same));
          still = λ c now. elim (e.back p u lp c s.small now) [
            | inr d ↦ absurd (s.past c d)
            | inl same ↦
                let c' : (h.update p).is_dirty ≡ false =
                  ap (λ (v : UpdateRecord). v.is_dirty) same ∙ c in
                e.still p k lp c' (now ∙ sym same) ∙ f.still c same
          ];
        }

    pub Helps-evolves :
        (j k n : ℕ) (own : Bool) (o : ℕ) → j ≢ i → Helps g h j k n own o → Helps g' h' j k n own o
    Helps-evolves j k n true o ne (kn, c, q) = (e.known o kn, e.caller o kn ∙ c, e.op_key o kn ∙ q)
    Helps-evolves j k n false o ne (kn, m) = (e.known o kn, Mine-evolves j k n ne m)

    -- The state of another thread stays true.
    pub IsThread-evolves : (j : ℕ) (t : Thread) → j ≢ i → IsThread g h j t → IsThread g' h' j t
    IsThread-evolves j outside ne x = tt
    IsThread-evolves j (at_node k n l) ne (m, l') = (Mine-evolves j k n ne m, Leads-evolves k l l')
    IsThread-evolves j (at_child k n p u) ne (m, l, s) =
        (Mine-evolves j k n ne m, Leads-evolves k p l, Seen-evolves p u l.linked s)
    IsThread-evolves j (found k n p u l) ne (m, q, s, f) = (
      Mine-evolves j k n ne m,
      Leads-evolves k p q,
      Seen-evolves p u q.linked s,
      Found-evolves k p u l q.linked s f,
    )
    IsThread-evolves j (helping k n own o) ne x = Helps-evolves j k n own o ne x
    IsThread-evolves j (cleaning k n own o) ne (f, x) = (e.ends o f, Helps-evolves j k n own o ne x)
    IsThread-evolves j (returned k true o) ne (f, c, q) =
        let kn : g.stage o ≢ unknown = ground arith in
        (e.ends o f, e.caller o kn ∙ c, e.op_key o kn ∙ q)
    IsThread-evolves j (returned k false o) ne x = e.present k x
