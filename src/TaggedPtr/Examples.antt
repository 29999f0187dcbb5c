-- ===== src/TaggedPtr/Examples.antt =====
-- The theorems of the tagged pointer at concrete words.
use zwq_repos.Prelude.{◌%◌, ◌^◌, ◌≡◌, ◌↔◌, true, arith}
use zwq_repos.TaggedPtr.{TaggedPtr, tagged_ptr, set, equal, get_ptr, get_tag, set_ptr, set_tag}
use zwq_repos.TaggedPtr.Laws.{IsWord, tagged_ptr_roundtrip, set_parts, equal_iff}
use zwq_repos.TaggedPtr.Aba.{reuse, equal-reuse_iff}

abbrev sample : TaggedPtr
sample = tagged_ptr 4096 65535

tagged_ptr_roundtrip_example :
    (get_ptr sample ≡ 4096)
    × (get_tag sample ≡ 65535)
    × (set 4096 65535 (tagged_ptr 8 1) ≡ sample)
    × IsWord sample
tagged_ptr_roundtrip_example =
    tagged_ptr_roundtrip 4096 65535 (tagged_ptr 8 1) (omega arith) (omega arith)

sample_parts :
    (get_ptr (set_ptr 64 sample) ≡ 64)
    × (get_tag (set_ptr 64 sample) ≡ get_tag sample)
    × (get_ptr (set_tag 3 sample) ≡ get_ptr sample)
    × (get_tag (set_tag 3 sample) ≡ 3)
sample_parts = set_parts sample 64 3 (omega arith) (omega arith)

sample-equal : (equal sample (tagged_ptr 4096 0) ≡ true) ↔ (
    (get_ptr sample ≡ get_ptr (tagged_ptr 4096 0)) × (get_tag sample ≡ get_tag (tagged_ptr 4096 0)))
unfolding tagged_ptr
sample-equal = equal_iff sample (tagged_ptr 4096 0) (omega arith) (omega arith)

equal-reuse_iff_example : (equal (reuse 4096 65536 sample) sample ≡ true) ↔ (65536 % 2 ^ 16 ≡ 0)
equal-reuse_iff_example = equal-reuse_iff 4096 65535 65536 (omega arith)
