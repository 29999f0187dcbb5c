-- ===== src/Bst/NonBlocking/Helping.antt =====
-- BST/NonBlockingBST.cpp: the steps of `helpInsert`.
use zwq_repos.Prelude.{
  ℕ, suc, ◌≤◌, ◌<◌, ◌≡◌, ◌≢◌, ◌⊎◌, inl, inr, refl, sym, subst, ap, ◌∙◌, Bool, true, false, arith,
}
use zwq_repos.Bst.Tree.{inf2}
use zwq_repos.Bst.NonBlocking.{
  UpdateRecord, Heap, root, dirty, clean_null, Thread, at_node, helping, cleaning, returned,
  help_child, help_clean,
}
use zwq_repos.Bst.NonBlocking.Invariant.{
  History, Stage, unknown, pending, finished, Leads, IsHeap, Helps, IsBusy,
}
use zwq_repos.Bst.NonBlocking.Evolves.{Helps-evolves, Mine-evolves}
use zwq_repos.Bst.NonBlocking.Updates.{IsHeap-clean, Evolves-clean, clean_done, Contains-updated}
use zwq_repos.Bst.NonBlocking.Link.{help_child_finished}
use zwq_repos.Bst.NonBlocking.Linked.{linking, linked_cases, fresh}
use zwq_repos.Bst.NonBlocking.Keys.{op_key_in, op_key_out, Contains-back}
use zwq_repos.Bst.NonBlocking.Lasting.{finished_cases, IsHeap-link, Evolves-link}
use zwq_repos.Bst.NonBlocking.Kept.{known_was}
use zwq_repos.Bst.NonBlocking.Route.{Contains}
use zwq_repos.Bst.NonBlocking.Moves.{Adds, same_keys, new_key, Moves, stays}

Stage-cases : (x : Stage) → x ≢ unknown → (x ≡ pending) ⊎ (x ≡ finished)
Stage-cases x ne = ground arith

known :
    (g : History) (h : Heap) (i k n : ℕ) (own : Bool) (o : ℕ)
    → Helps g h i k n own o
    → g.stage o ≢ unknown
known g h i k n true o x = x.0
known g h i k n false o x = x.0

module _ (i : ℕ) (g : History) (h : Heap) (inv : IsHeap g h) (k n : ℕ) (own : Bool) (o : ℕ) where
  -- The first exchange puts the new nodes in their place.
  helping_links :
      Helps g h i k n own o
      → g.stage o ≡ pending
      → Moves i g h (helping k n own o) (help_child o h, cleaning k n own o)
  helping_links x e = (
    linking g h o,
    record {
      heap = IsHeap-link g h o inv e;
      evolves = Evolves-link g h o inv e i;
      me = (
        ground arith,
        Helps-evolves (Evolves-link g h o inv e (suc i)) inv i k n own o (ground arith) x,
      );
      adds =
          new_key (g.op_key o) (op_key_out g h o inv e) (op_key_in g h o inv e)
            (Contains-back g h o inv e);
      active = λ ne q. ground arith;
      begins = λ y kn. inl (known_was g h o inv e y kn, refl);
      ended = λ y d. elim (finished_cases g h o inv e y d) [
        | inl same ↦
            inr (subst (λ z. ¬ Contains h (g.op_key z)) (sym same) (op_key_out g h o inv e))
        | inr was ↦ inl was
      ];
      dirt = λ p y l d. elim (linked_cases g h o inv e p l) [
        | inl was ↦ inl (was, d, refl, λ b. b)
        | inr is_new ↦ absurd (not_dirty p y is_new d)
      ];
    },
  )
    where
      not_dirty :
          (p y : ℕ)
          → (p ≡ h.subtree o) ⊎ ((p ≡ h.left (h.subtree o)) ⊎ (p ≡ h.right (h.subtree o)))
          → h.update p ≢ dirty y
      not_dirty p y is_new d =
          let f = fresh g h o inv e in
          let null : h.update p ≡ clean_null = elim is_new [
            | inl q ↦ ap h.update q ∙ f.subtree.fresh
            | inr (inl q) ↦ ap h.update q ∙ f.left.fresh
            | inr (inr q) ↦ ap h.update q ∙ f.right.fresh
          ] in
          ground (arith, ap (λ (v : UpdateRecord). v.is_dirty) (sym null ∙ d))

  pub helping-Moves :
      Helps g h i k n own o → Moves i g h (helping k n own o) (help_child o h, cleaning k n own o)
  helping-Moves x = elim (Stage-cases (g.stage o) (known g h i k n own o x)) [
    | inl e ↦ helping_links x e
    | inr e ↦
        subst (λ f. Moves i g h (helping k n own o) (f, cleaning k n own o))
          (sym (help_child_finished g h o inv (inv.op o (known g h i k n own o x)) (inv.ends o e)))
          (stays i g h (helping k n own o) (cleaning k n own o) inv (e, x) (λ y b. b)
            (λ ne e. ground arith))
  ]

-- Every key leads to the root.
pub root-Leads : (g : History) (h : Heap) (k : ℕ) → IsHeap g h → k ≤ inf2 → Leads g h k root
root-Leads g h k inv le = record {
  linked = inv.root_linked;
  inner = inv.root_inner;
  low = omega (arith, inv.root_lo);
  high = omega (arith, inv.root_hi, le);
}

module _ (i : ℕ) (g : History) (h : Heap) (inv : IsHeap g h) (k n o : ℕ)
    (done : g.stage o ≡ finished) where
  same_after : Adds h (help_clean o h)
  same_after = same_keys (λ j c. Contains-updated g (help_clean o h) h.update j c)

  cleaned_dirt :
      (own : Bool) (t' : Thread) (p y : ℕ)
      → g.linked p ≡ true
      → (help_clean o h).update p ≡ dirty y
      → ((g.linked p ≡ true)
          × (h.update p ≡ dirty y)
          × (g.caller y ≡ g.caller y)
          × (IsBusy y (cleaning k n own o) → IsBusy y t'))
        ⊎ ((g.caller y ≡ i) × IsBusy y t')
  cleaned_dirt own t' p y l d =
      let small : y < h.next =
        subst (λ (v : UpdateRecord). v.info < h.next) d
          ((IsHeap-clean g h inv o done).update p l).small in
      inl (
        l,
        (Evolves-clean g h inv o done i).dirt p y l small d,
        refl,
        λ b. absurd (clean_done g h inv o done p l (d ∙ ap dirty (sym b.1))),
      )

  pub own_returns :
      Helps g h i k n true o → Moves i g h (cleaning k n true o) (help_clean o h, returned k true o)
  own_returns x = (
    g,
    record {
      heap = IsHeap-clean g h inv o done;
      evolves = Evolves-clean g h inv o done i;
      me = (done, x.1, x.2);
      adds = same_after;
      active = λ ne e. ground arith;
      begins = λ y kn. inl (kn, refl);
      ended = λ y e. inl e;
      dirt = cleaned_dirt true (returned k true o);
    },
  )

  pub other_retries :
      Helps g h i k n false o
      → Moves i g h (cleaning k n false o) (help_clean o h, at_node k n root)
  other_retries x = (
    g,
    record {
      heap = IsHeap-clean g h inv o done;
      evolves = Evolves-clean g h inv o done i;
      me = (
        Mine-evolves (Evolves-clean g h inv o done (suc i)) inv i k n (ground arith) x.1,
        root-Leads g (help_clean o h) k (IsHeap-clean g h inv o done) x.1.in_range,
      );
      adds = same_after;
      active = λ ne e. ground arith;
      begins = λ y kn. inl (kn, refl);
      ended = λ y e. inl e;
      dirt = cleaned_dirt false (at_node k n root);
    },
  )
