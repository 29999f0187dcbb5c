-- ===== src/TaggedPtrPair/Examples.antt =====
-- The theorems of the pair at concrete words.
use zwq_repos.Prelude.{◌%◌, ◌^◌, ◌≡◌, ◌↔◌, true, arith}
use zwq_repos.TaggedPtrPair.{
  TaggedPtrPair, tagged_ptr_pair, get_left_ptr, get_right_ptr, get_left_tag, get_right_tag,
  set_left_ptr, set_right_ptr, set_left_tag, set_right_tag, equal,
}
use zwq_repos.TaggedPtrPair.Laws.{
  Parts, IsWords, tagged_ptr_pair_roundtrip, set_pair-Parts, equal_pair_iff,
}

abbrev sample : TaggedPtrPair
sample = tagged_ptr_pair 4096 8192 2 70000

sample_packed : Parts sample 4096 8192 (2 % 2 ^ 16) (70000 % 2 ^ 16) × IsWords sample
sample_packed = tagged_ptr_pair_roundtrip 4096 8192 2 70000 (omega arith) (omega arith)

sample_setters :
    Parts
      (set_left_ptr 64 sample)
      64
      (get_right_ptr sample)
      (get_left_tag sample)
      (get_right_tag sample)
    × Parts
        (set_right_ptr 64 sample)
        (get_left_ptr sample)
        64
        (get_left_tag sample)
        (get_right_tag sample)
    × Parts
        (set_left_tag 9 sample)
        (get_left_ptr sample)
        (get_right_ptr sample)
        9
        (get_right_tag sample)
    × Parts
        (set_right_tag 9 sample)
        (get_left_ptr sample)
        (get_right_ptr sample)
        (get_left_tag sample)
        9
sample_setters = set_pair-Parts sample 64 9 (omega arith) (omega arith)

equal_pair_iff_example :
    (equal sample sample ≡ true)
    ↔ Parts sample
        (get_left_ptr sample)
        (get_right_ptr sample)
        (get_left_tag sample)
        (get_right_tag sample)
unfolding tagged_ptr_pair
equal_pair_iff_example = equal_pair_iff sample sample (omega arith) (omega arith)
