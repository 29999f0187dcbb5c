-- ===== src/FixedFreelist/Examples.antt =====
-- Runs of the freelist of fixed size, and its theorems at concrete states.
use zwq_repos.Prelude.{
  ℕ, ◌+◌, ◌*◌, ◌%◌, ◌≤◌, ◌<◌, ◌≡◌, ◌≢◌, refl, false, none, some, List, [], ◌∷◌, ◌++◌, arith,
  countdown,
}
use zwq_repos.FixedFreelist.{
  TaggedIndex, Cell, object, Freelist, Interference, quiet, null_handle, construct, destruct,
  allocate_impl, allocate_impl_unsafe, deallocate_impl, deallocate_impl_unsafe, fixed_size_freelist,
}
use zwq_repos.FixedFreelist.Chain.{
  Holds, fixed_size_freelist-Holds, construct-Holds_cons, destruct-Holds,
}
use zwq_repos.FixedFreelist.Clients.{Client, after_construct, after_destruct, fresh}
use zwq_repos.FixedFreelist.Loops.{Tries, Untouched, deallocate_impl_linear}
use zwq_repos.FixedFreelist.Storage.{nodes_address, nodes_address_fits, runtime_null_handle}

-- Objects are numbers, whose bytes read as a link with their value.
abbrev raw : ℕ → TaggedIndex
raw t = record { index = t; tag = 0 }

abbrev junk : ℕ → Cell ℕ
junk i = object (i + 7)

abbrev three : Freelist ℕ
three = fixed_size_freelist raw 3 junk

-- The last node is given out first, then a destructed one before the rest.
lifo :
    ((construct raw 50 three).0 ≡ some 2)
    × ((construct raw 60 (construct raw 50 three).1).0 ≡ some 1)
    × ((construct raw 70 (destruct raw 2 (construct raw 60 (construct raw 50 three).1).1)).0
        ≡ some 2)
unfolding construct destruct fixed_size_freelist allocate_impl_unsafe
lifo = (refl, refl, refl)

three_held : Holds raw three (countdown 3) × (three.node_count ≡ 3)
three_held = fixed_size_freelist-Holds raw 3 junk (omega arith)

three_constructed :
    ((construct raw 50 three).0 ≡ some 2)
    × Holds raw (construct raw 50 three).1 (1 ∷ 0 ∷ [])
    × ((construct raw 50 three).1.nodes 2 ≡ object 50)
    × ((j : ℕ) → j ≢ 2 → (construct raw 50 three).1.nodes j ≡ three.nodes j)
    × ((construct raw 50 three).1.node_count ≡ three.node_count)
three_constructed = construct-Holds_cons raw 50 three 2 (1 ∷ 0 ∷ []) three_held.0

destruct-Holds_example : Holds raw (destruct raw 2 (construct raw 50 three).1) (2 ∷ 1 ∷ 0 ∷ [])
unfolding construct fixed_size_freelist allocate_impl_unsafe
destruct-Holds_example =
    destruct-Holds raw (construct raw 50 three).1 2 (1 ∷ 0 ∷ []) three_constructed.1 (omega arith)
      refl

-- Construct, destruct, construct again.
abbrev first : Client ℕ
first = after_construct raw 50 (fresh raw 3 junk)

abbrev second : Client ℕ
second = after_construct raw 60 (after_destruct raw 2 first)

-- Another thread takes the top node during the first round, so the first exchange fails.
abbrev rival : Interference ℕ
rival = record {
  before_access = λ s. s;
  before_cas = λ s. (allocate_impl_unsafe raw s).1;
  spurious = false;
}

abbrev rounds : List (Interference ℕ)
rounds = (rival ∷ []) ++ quiet ∷ []

rival_wins :
    allocate_impl raw rounds three
    ≡ some (allocate_impl_unsafe raw (allocate_impl_unsafe raw three).1)
unfolding allocate_impl fixed_size_freelist allocate_impl_unsafe
rival_wins = refl

taken : Freelist ℕ
unfolding construct fixed_size_freelist
taken = (construct raw 50 three).1

rounds-Untouched : Untouched raw rounds 2 taken
unfolding taken allocate_impl_unsafe
rounds-Untouched = (refl, (refl, tt))

deallocate_impl_linear_example :
    (t : Freelist ℕ) × Tries raw rounds 2 taken t
    × (deallocate_impl raw rounds 2 taken ≡ some (deallocate_impl_unsafe raw 2 t))
deallocate_impl_linear_example = deallocate_impl_linear raw (rival ∷ []) 2 taken rounds-Untouched

abbrev huge : Freelist ℕ
huge = record { pool = record { index = 9; tag = 0 }; nodes = junk; node_count = 70000 }

runtime_null_handle_example :
    (null_handle huge < 70000) × ((construct raw 5 (destruct raw (null_handle huge) huge)).0 ≡ none)
runtime_null_handle_example = runtime_null_handle raw 5 huge refl

address_of_1000 :
    (nodes_address 1000 % 64 ≡ 0)
    × (1000 ≤ nodes_address 1000)
    × (nodes_address 1000 + 3 * 16 ≤ 1000 + (3 * 16 + 64))
address_of_1000 = nodes_address_fits 1000 3 16
