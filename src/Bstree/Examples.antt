-- ===== src/Bstree/Examples.antt =====
-- utility/bstree.hpp: runs, and the theorems at concrete heaps.
use zwq_repos.Prelude.{
  ℕ, ◌≡◌, ◌↔◌, refl, Bool, true, false, none, some, List, [], ◌∷◌, ◌==◌, arith, if◌then◌else◌,
}
use zwq_repos.Bstree.{
  Var, datum, inf0, inf1, Heap, Entity, SearchResult, flag, lessexp, equalexp, new_tree, lookup,
  helpinsert, make_internal, insert_clean, insert_found, insert,
}
use zwq_repos.Bstree.Compare.{OneOfThree, lessexp_total_order}
use zwq_repos.Bstree.Flags.{IsClosed, helpinsert-update, insert_lost}

abbrev blank : Entity
blank = record { key = inf1; is_leaf = true; left = 0; right = 0; update = 0 }

abbrev empty : Heap
empty = record {
  entities = λ p. blank;
  flags = λ p. flag false 0;
  infos = λ p. record { parent = 0; leaf = 0; subtree = 0 };
  next = 1;
  root = 0;
}

-- The insertions of a list, each alone, and their results.
run : List ℕ → Heap → List Bool × Heap
run [] h = ([], h)
run (d ∷ ds) h = elim (insert 20 (λ g. g) d h) [
  | none ↦ ([], h)
  | some (b, h') ↦ let (bs, last) = run ds h' in (b ∷ bs, last)
]

-- Whether a search ends at the key.
found : ℕ → Heap → Bool
found d h = elim (lookup 20 (datum d) h) [
  | none ↦ false
  | some s ↦ equalexp (h.entities s.self).key (datum d)
]

-- All four insertions return true, and the last key is not there.
nine_is_lost :
    let (results, h) = run (4 ∷ 8 ∷ 1 ∷ 9 ∷ []) (new_tree empty) in
    (results ≡ true ∷ true ∷ true ∷ true ∷ [])
    × (found 4 h ≡ true)
    × (found 8 h ≡ true)
    × (found 1 h ≡ true)
    × (found 9 h ≡ false)
unfolding run found insert insert_found insert_clean make_internal helpinsert lookup new_tree
    lessexp equalexp
nine_is_lost = (refl, refl, refl, refl, refl)

order_run :
    (lessexp (datum 3) inf0 ≡ true → lessexp inf0 inf1 ≡ true → lessexp (datum 3) inf1 ≡ true)
    × ((equalexp (datum 3) inf0 ≡ true) ↔ (datum 3 ≡ inf0))
    × OneOfThree (datum 3) inf0
order_run = lessexp_total_order (datum 3) inf0 inf1

-- A root with the leaves 5 and `Inf1`; the root's flag is `b`, for the insertion that put 5 there.
abbrev small : Bool → Heap
small b = record {
  entities = λ p.
      if p == 1
      then record { key = inf1; is_leaf = false; left = 2; right = 3; update = 4 }
      else if p == 2
      then record { key = datum 5; is_leaf = true; left = 0; right = 0; update = 0 }
      else blank;
  flags = λ p. if p == 4 then flag b 6 else flag false 0;
  infos = λ p. record { parent = 1; leaf = 9; subtree = 2 };
  next = 10;
  root = 1;
}

small-IsClosed : (b : Bool) → IsClosed (small b)
small-IsClosed b = record {
  root = omega arith;
  left = λ p lt. ground arith;
  right = λ p lt. ground arith;
  update = λ p. ground arith;
  parent = λ r. omega arith;
}

helpinsert_run : ((helpinsert 6 (small true)).entities 1).update ≡ ((small true).entities 1).update
helpinsert_run = helpinsert-update 6 1 (small true) (small-IsClosed true).update

abbrev at_five : SearchResult
at_five = record { parent = 1; self = 2; pupdate = 4 }

insert_lost_example :
    (h' : Heap) × (insert 3 (λ g. g) 7 (small true) ≡ some (true, h'))
    × ((n : ℕ) (k : Var) → lookup n k h' ≡ lookup n k (small true))
unfolding lookup lessexp equalexp
insert_lost_example =
    insert_lost 3 (λ g. g) 7 at_five (small true) (small-IsClosed true) refl refl refl
      (record { not_left = omega arith; not_right = omega arith })

-- The root's key above both keys, and the new leaf 7 at number 8.
abbrev ready : Heap
ready = record (small false) {
  entities = λ p.
      if p == 8
      then record { key = datum 7; is_leaf = true; left = 0; right = 0; update = 0 }
      else (small false).entities p;
}
