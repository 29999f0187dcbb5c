-- ===== src/TaggedPtrDcas/Examples.antt =====
-- A run of both implementations of the tagged pointer.
use zwq_repos.Prelude.{List, [], ◌∷◌, refl, arith}
use zwq_repos.TaggedPtr
use zwq_repos.TaggedPtrDcas
use zwq_repos.TaggedPtrDcas.Laws.{Op, Agree, run, run_dcas, run-Agree}

abbrev ops : List Op
ops = Op.set 4096 65535 ∷ Op.bump ∷ Op.set_ptr 64 ∷ []

run-Agree_example :
    Agree (run ops (TaggedPtr.tagged_ptr 8 1)) (run_dcas ops (TaggedPtrDcas.tagged_ptr 8 1))
unfolding TaggedPtr.tagged_ptr TaggedPtr.get_ptr TaggedPtr.get_tag TaggedPtrDcas.tagged_ptr
    TaggedPtrDcas.get_ptr TaggedPtrDcas.get_tag
run-Agree_example =
    run-Agree ops (TaggedPtr.tagged_ptr 8 1) (TaggedPtrDcas.tagged_ptr 8 1) (omega arith)
      (record { same_ptr = refl; same_tag = refl })
