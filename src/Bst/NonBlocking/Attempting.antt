-- ===== src/Bst/NonBlocking/Attempting.antt =====
-- BST/NonBlockingBST.cpp: the step of `insert` after `search`.
use zwq_repos.Prelude.{
  ℕ, suc, ◌+◌, ◌≡◌, ◌≢◌, ◌⊎◌, inl, inr, refl, sym, subst, ap, ◌∙◌, fun_ext, Bool, true, false, ◌&&◌,
  ◌==◌, if◌then◌else◌, arith, Bool-cases, ==_refl,
}
use zwq_repos.Bst.NonBlocking.{
  UpdateRecord, Heap, dirty, same_update, cas_update, prepare, flag, found, helping, returned,
}
use zwq_repos.Bst.NonBlocking.Invariant.{History, unknown, IsHeap, IsThread, IsBusy}
use zwq_repos.Bst.NonBlocking.Evolves.{Mine-evolves}
use zwq_repos.Bst.NonBlocking.Extends.{IsHeap-Extends, Evolves-Extends}
use zwq_repos.Bst.NonBlocking.Updates.{
  same-eq, same-ne, cas_update_fails, updated, Contains-updated,
}
use zwq_repos.Bst.NonBlocking.Flag.{Attempt, flagged, dirtied, dirtied_cases, other}
use zwq_repos.Bst.NonBlocking.Flagged.{known_cases, was_finished, IsHeap-flag, Evolves-flag}
use zwq_repos.Bst.NonBlocking.Preparing.{prepare-Extends, Attempt-prepare}
use zwq_repos.Bst.NonBlocking.Owning.{Extends-shrinks, Extends-Adds}
use zwq_repos.Bst.NonBlocking.Moves.{same_keys, Moves, stays}

module _ (i : ℕ) (g : History) (h : Heap) (inv : IsHeap g h) (k n p : ℕ) (u : UpdateRecord)
    (l : ℕ) where
  abbrev prepared : Heap
  prepared = prepare k n p l h

  abbrev o : ℕ
  o = h.next + 2

  prepared_inv : IsHeap g prepared
  prepared_inv = IsHeap-Extends (prepare-Extends k n p l h) g inv

  -- The exchange fails: the thread helps the operation it has seen.
  flag_fails :
      IsThread g h i (found k n p u l)
      → same_update (prepared.update p) u ≡ false
      → Moves i g h (found k n p u l) (prepared, helping k n false (prepared.update p).info)
  flag_fails (m, q, s, f) e =
      let x = prepare-Extends k n p l h in
      let same = x.update p (inv.node p q.linked).old in
      (
        g,
        record {
          heap = prepared_inv;
          evolves = Evolves-Extends x g inv i;
          me = (
            (prepared_inv.update p q.linked).known (elim s.moved [
              | inl now ↦ absurd (same-ne _ _ e (same ∙ now))
              | inr nz ↦ λ z. nz (sym (ap (λ (v : UpdateRecord). v.info) same) ∙ z)
            ]),
            Mine-evolves (Evolves-Extends x g inv (suc i)) inv i k n (ground arith) m,
          );
          adds = Extends-Adds g h prepared inv x;
          active = λ ne q. ground arith;
          begins = λ y kn. inl (kn, refl);
          ended = λ y q. inl q;
          dirt =
              λ r y lr d. inl (lr, sym (x.update r (inv.node r lr).old) ∙ d, refl, λ b. absurd b);
        },
      )

  module _ (a : Attempt g prepared i k n p l o (h.next + 1) h.next) where
    abbrev later : History
    later = flagged g prepared i k n p l o (h.next + 1) h.next

    abbrev after : Heap
    after = updated g prepared (dirtied g prepared i k n p l o (h.next + 1) h.next)

    flagged_dirt :
        (r y : ℕ)
        → g.linked r ≡ true
        → after.update r ≡ dirty y
        → ((g.linked r ≡ true)
            × (h.update r ≡ dirty y)
            × (later.caller y ≡ g.caller y)
            × (IsBusy y (found k n p u l) → IsBusy y (helping k n true o)))
          ⊎ ((later.caller y ≡ i) × IsBusy y (helping k n true o))
    flagged_dirt r y lr d =
        let x = prepare-Extends k n p l h in
        elim (dirtied_cases g prepared i k n p l o (h.next + 1) h.next prepared_inv a r) [
          | inl (here, now) ↦
              let same : o ≡ y = ap (λ (v : UpdateRecord). v.info) (sym now ∙ d) in
              let test : (y == o) ≡ true = ground arith in
              inr (rw (test, if◌then◌else◌) refl, (refl, same))
          | inr (away, same) ↦
              let was : prepared.update r ≡ dirty y = sym same ∙ d in
              let v = prepared_inv.update r lr in
              let kn : g.stage y ≢ unknown =
                subst (λ (w : UpdateRecord). g.stage w.info ≢ unknown) was
                  (v.dirty_info (ap (λ (w : UpdateRecord). w.is_dirty) was)).0 in
              let test = other g prepared i k n p l o (h.next + 1) h.next prepared_inv a y kn in
              inl (
                lr,
                sym (x.update r (inv.node r lr).old) ∙ was,
                rw (test, if◌then◌else◌) refl,
                λ b. absurd b,
              )
        ]

    -- The exchange succeeds.
    flag_sets : Moves i g h (found k n p u l) (after, helping k n true o)
    flag_sets =
        let x = prepare-Extends k n p l h in
        let me : (o == o) ≡ true = ==_refl o in
        (
          later,
          record {
            heap = IsHeap-flag g prepared i k n p l o (h.next + 1) h.next prepared_inv a;
            evolves =
                Evolves-flag g prepared i k n p l o (h.next + 1) h.next prepared_inv a h x inv
                  (omega arith);
            me = (
              rw (me, if◌then◌else◌) (λ e. ground arith),
              rw (me, if◌then◌else◌) refl,
              rw (me, if◌then◌else◌) refl,
            );
            adds = same_keys (λ j c.
                Extends-shrinks g h prepared inv x j
                  (Contains-updated g after prepared.update j c));
            active = λ ne e. ground arith;
            begins = λ y kn.
                elim (known_cases g prepared i k n p l o (h.next + 1) h.next prepared_inv a y kn) [
                  | inl e ↦
                      let test : (y == o) ≡ true = ground arith in
                      inr (rw (test, if◌then◌else◌) refl, λ q. ground arith)
                  | inr was ↦
                      let test =
                        other g prepared i k n p l o (h.next + 1) h.next prepared_inv a y was in
                      inl (was, rw (test, if◌then◌else◌) refl)
                ];
            ended = λ y e.
                inl (was_finished g prepared i k n p l o (h.next + 1) h.next prepared_inv a y e);
            dirt = flagged_dirt;
          },
        )

  -- What the exchange leaves when it succeeds.
  flag_heap :
      same_update (prepared.update p) u ≡ true
      → cas_update p u (dirty o) prepared
        ≡ updated g prepared (dirtied g prepared i k n p l o (h.next + 1) h.next)
  flag_heap e =
      let same : (λ x.
        if x == p && same_update (prepared.update p) u then dirty o else prepared.update x)
          ≡ dirtied g prepared i k n p l o (h.next + 1) h.next =
        fun_ext λ x. ground (arith, e) in
      ap (λ (f : ℕ → UpdateRecord). record prepared { update = f }) same

  pub flag-Moves :
      IsThread g h i (found k n p u l)
      → h.key l ≢ k
      → u.is_dirty ≡ false
      → Moves i g h (found k n p u l) (flag k n p u l h)
  flag-Moves (m, q, s, f) ne clean = elim (Bool-cases (same_update (prepared.update p) u)) [
    | inl e ↦
        let now : h.update p ≡ u =
          sym ((prepare-Extends k n p l h).update p (inv.node p q.linked).old) ∙ same-eq _ _ e in
        rw (flag_heap e, e, if◌then◌else◌)
          (flag_sets (Attempt-prepare i g h inv k n p l u m q f clean now (λ t. ne (sym t))))
    | inr e ↦
        rw (cas_update_fails p u (dirty o) prepared e, e, if◌then◌else◌) (flag_fails (m, q, s, f) e)
  ]

  pub found-Moves :
      IsThread g h i (found k n p u l)
      → Moves i g h (found k n p u l) (
          if h.key l == k
          then (h, returned k false l)
          else if u.is_dirty
          then (h, helping k n false u.info)
          else flag k n p u l h)
  found-Moves (m, q, s, f) = elim (Bool-cases (h.key l == k)) [
    | inl e ↦
        rw (e, if◌then◌else◌)
          (stays i g h (found k n p u l) (returned k false l) inv (f.present (ground arith))
            (λ y b. absurd b) (λ ne e. ground arith))
    | inr e ↦
        rw (e, if◌then◌else◌)
          (elim (Bool-cases u.is_dirty) [
            | inl d ↦ subst branch (sym d) (
                stays i g h (found k n p u l) (helping k n false u.info) inv (s.known d, m)
                  (λ y b. absurd b) (λ ne e. ground arith))
            | inr d ↦ subst branch (sym d) (flag-Moves (m, q, s, f) (ground arith) d)
          ])
  ]
    where
      branch : Bool → Type 0
      branch t =
          Moves i g h (found k n p u l)
            (if t then (h, helping k n false u.info) else flag k n p u l h)
