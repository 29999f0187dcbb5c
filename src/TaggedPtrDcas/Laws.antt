-- ===== src/TaggedPtrDcas/Laws.antt =====
-- detail-dev/tagged_ptr_dcas.hpp against detail-dev/tagged_ptr_ptrcompression.hpp, between which
-- detail-dev/tagged_ptr.hpp chooses by the machine.
use zwq_repos.Prelude.{ℕ, ◌%◌, ◌^◌, ◌<◌, ◌≡◌, List, [], ◌∷◌, arith}
use zwq_repos.TaggedPtr
use zwq_repos.TaggedPtr.{TaggedPtr}
use zwq_repos.TaggedPtrDcas
use zwq_repos.TaggedPtrDcas.{TaggedPtrDcas}

-- What a client does to a tagged pointer. `bump` is `set_tag(get_next_tag())`.
pub data Op : Type 0 where
  set : ℕ → ℕ → Op
  set_ptr : ℕ → Op
  set_tag : ℕ → Op
  bump : Op

-- Pointers of 48 bits and tags of 16 bits.
abbrev pub Fits : List Op → Type 0
Fits [] = Unit
Fits (set p t ∷ ops) = (p < 2 ^ 48) × (t < 2 ^ 16) × Fits ops
Fits (set_ptr p ∷ ops) = (p < 2 ^ 48) × Fits ops
Fits (set_tag t ∷ ops) = (t < 2 ^ 16) × Fits ops
Fits (bump ∷ ops) = Fits ops

pub run : List Op → TaggedPtr → TaggedPtr
run [] x = x
run (set p t ∷ ops) x = run ops (TaggedPtr.set p t x)
run (set_ptr p ∷ ops) x = run ops (TaggedPtr.set_ptr p x)
run (set_tag t ∷ ops) x = run ops (TaggedPtr.set_tag t x)
run (bump ∷ ops) x = run ops (TaggedPtr.set_tag (TaggedPtr.get_next_tag x) x)

pub run_dcas : List Op → TaggedPtrDcas → TaggedPtrDcas
run_dcas [] x = x
run_dcas (set p t ∷ ops) x = run_dcas ops (TaggedPtrDcas.set p t x)
run_dcas (set_ptr p ∷ ops) x = run_dcas ops (TaggedPtrDcas.set_ptr p x)
run_dcas (set_tag t ∷ ops) x = run_dcas ops (TaggedPtrDcas.set_tag t x)
run_dcas (bump ∷ ops) x = run_dcas ops (TaggedPtrDcas.set_tag (TaggedPtrDcas.get_next_tag x) x)

-- The same pointer, and the same tag modulo 2^16.
pub record Agree (x : TaggedPtr) (y : TaggedPtrDcas) : Type 0 where
  pub same_ptr : TaggedPtr.get_ptr x ≡ TaggedPtrDcas.get_ptr y
  pub same_tag : TaggedPtr.get_tag x ≡ TaggedPtrDcas.get_tag y % 2 ^ 16

module _ (x : TaggedPtr) (y : TaggedPtrDcas) (a : Agree x y) where
  Agree-set :
      (p t : ℕ) → p < 2 ^ 48 → t < 2 ^ 16 → Agree (TaggedPtr.set p t x) (TaggedPtrDcas.set p t y)
  unfolding TaggedPtr.set TaggedPtr.get_ptr TaggedPtr.get_tag TaggedPtrDcas.set
      TaggedPtrDcas.get_ptr TaggedPtrDcas.get_tag
  Agree-set p t hp ht = record { same_ptr = omega arith; same_tag = omega arith }

  Agree-set_ptr : (p : ℕ) → p < 2 ^ 48 → Agree (TaggedPtr.set_ptr p x) (TaggedPtrDcas.set_ptr p y)
  unfolding TaggedPtr.set_ptr TaggedPtr.get_ptr TaggedPtr.get_tag TaggedPtrDcas.set_ptr
      TaggedPtrDcas.get_ptr TaggedPtrDcas.get_tag
  Agree-set_ptr p hp =
      let s = a.same_tag in record { same_ptr = omega arith; same_tag = omega arith }

  Agree-set_tag : (t : ℕ) → t < 2 ^ 16 → Agree (TaggedPtr.set_tag t x) (TaggedPtrDcas.set_tag t y)
  unfolding TaggedPtr.set_tag TaggedPtr.get_ptr TaggedPtr.get_tag TaggedPtrDcas.set_tag
      TaggedPtrDcas.get_ptr TaggedPtrDcas.get_tag
  Agree-set_tag t ht =
      let s = a.same_ptr in record { same_ptr = omega arith; same_tag = omega arith }

  Agree-bump :
      Agree
        (TaggedPtr.set_tag (TaggedPtr.get_next_tag x) x)
        (TaggedPtrDcas.set_tag (TaggedPtrDcas.get_next_tag y) y)
  unfolding TaggedPtr.set_tag TaggedPtr.get_ptr TaggedPtr.get_next_tag TaggedPtrDcas.set_tag
      TaggedPtrDcas.get_ptr TaggedPtrDcas.get_next_tag
  Agree-bump =
      let s = a.same_ptr in
      let t = a.same_tag in record { same_ptr = omega arith; same_tag = omega arith }

-- If the two implementations agree before a sequence of operations, they agree after it, as
-- long as the pointers fit 48 bits and the tags 16: the same pointer, and the same tag modulo 2^16.
pub run-Agree :
    (ops : List Op) (x : TaggedPtr) (y : TaggedPtrDcas)
    → Fits ops
    → Agree x y
    → Agree (run ops x) (run_dcas ops y)
unfolding run run_dcas
run-Agree [] x y h a = a
run-Agree (set p t ∷ ops) x y h a = run-Agree ops _ _ h.2 (Agree-set x y a p t h.0 h.1)
run-Agree (set_ptr p ∷ ops) x y h a = run-Agree ops _ _ h.1 (Agree-set_ptr x y a p h.0)
run-Agree (set_tag t ∷ ops) x y h a = run-Agree ops _ _ h.1 (Agree-set_tag x y a t h.0)
run-Agree (bump ∷ ops) x y h a = run-Agree ops _ _ h (Agree-bump x y a)
