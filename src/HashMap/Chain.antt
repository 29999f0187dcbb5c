-- ===== src/HashMap/Chain.antt =====
-- A hash table as a list of nodes, which keeps the promises of liburcu's table.
use zwq_repos.Prelude.{
  ℕ, suc, ◌≡◌, ◌≢◌, refl, Bool, true, false, not, ◌&&◌, List, [], ◌∷◌, ◌++◌, length, ◌==◌, ==_refl,
  has, IsDistinct, if◌then◌else◌, arith,
}
use zwq_repos.HashMap.{Lfht}
use zwq_repos.HashMap.Table.{IsLfht}

pub record Chain : Type 0 where
  pub list : List ℕ
  pub hash_of : ℕ → ℕ

search_list : (ℕ → Bool) → List ℕ → ℕ
search_list f [] = 0
search_list f (n ∷ r) = if f n then n else search_list f r

without : ℕ → List ℕ → List ℕ
without n [] = []
without n (k ∷ r) = let rest = without n r in if n == k then rest else k ∷ rest

first_of : List ℕ → ℕ
first_of [] = 0
first_of (n ∷ r) = n

after : ℕ → List ℕ → ℕ
unfolding first_of
after n [] = 0
after n (k ∷ r) = let rest = after n r in if n == k then first_of r else rest

unfoldable pub chain : Lfht Chain
unfolding search_list without first_of after
chain = record {
  lookup = λ h f t. search_list (λ n. t.hash_of n == h && f n) t.list;
  add = λ h n t. record { list = n ∷ t.list; hash_of = λ j. if j == n then h else t.hash_of j };
  add_unique = λ h f n t.
      let found = search_list (λ k. t.hash_of k == h && f k) t.list in
      if found == 0
      then (n, record { list = n ∷ t.list; hash_of = λ j. if j == n then h else t.hash_of j })
      else (found, t);
  del = λ n t. if has n t.list then (true, record t { list = without n t.list }) else (false, t);
  first = λ t. first_of t.list;
  next_node = λ n t. after n t.list;
  count_nodes = λ t. length t.list;
}

search_list_some :
    (f : ℕ → Bool) (l : List ℕ)
    → search_list f l ≢ 0
    → (has (search_list f l) l ≡ true) × (f (search_list f l) ≡ true)
unfolding search_list
search_list_some f [] nz = absurd (nz refl)
search_list_some f (n ∷ r) nz = ground (arith, search_list_some f r, ==_refl n)

search_list_none :
    (f : ℕ → Bool) (l : List ℕ) (n : ℕ)
    → has 0 l ≡ false
    → search_list f l ≡ 0
    → has n l ≡ true
    → f n ≡ false
unfolding search_list
search_list_none f [] n z e there = absurd (ground arith)
search_list_none f (k ∷ r) n z e there = ground (arith, search_list_none f r n)

has-without : (n j : ℕ) (l : List ℕ) → has j (without n l) ≡ (not (j == n) && has j l)
unfolding without
has-without n j [] = ground arith
has-without n j (k ∷ r) = ground (arith, has-without n j r)

IsDistinct-without : (n : ℕ) (l : List ℕ) → IsDistinct l → IsDistinct (without n l)
unfolding without
IsDistinct-without n [] d = tt
IsDistinct-without n (k ∷ r) d = ground (arith, IsDistinct-without n r, has-without n k r)

without_absent : (n : ℕ) (l : List ℕ) → has n l ≡ false → without n l ≡ l
unfolding without
without_absent n [] e = refl
without_absent n (k ∷ r) e = ground (arith, without_absent n r)

length-without :
    (n : ℕ) (l : List ℕ) → IsDistinct l → has n l ≡ true → length l ≡ suc (length (without n l))
unfolding without
length-without n [] d there = absurd (ground arith)
length-without n (k ∷ r) d there = ground (arith, length-without n r, without_absent n r)

has-middle : (xs : List ℕ) (n : ℕ) (r : List ℕ) → has n (xs ++ n ∷ r) ≡ true
has-middle [] n r = ground (arith, ==_refl n)
has-middle (x ∷ xs) n r = ground (arith, has-middle xs n r)

after-middle :
    (xs : List ℕ) (n : ℕ) (r : List ℕ)
    → IsDistinct (xs ++ n ∷ r)
    → after n (xs ++ n ∷ r) ≡ first_of r
unfolding after
after-middle [] n r d = ground (arith, ==_refl n)
after-middle (x ∷ xs) n r d = ground (arith, after-middle xs n r, has-middle xs n r)

pub chain-IsLfht : IsLfht Chain chain (λ t. t.list) (λ t. t.hash_of)
unfolding chain first_of
chain-IsLfht = record {
  lookup_some = λ h f t nz.
      let both = search_list_some (λ n. t.hash_of n == h && f n) t.list nz in
      (both.0, ground arith, ground arith);
  lookup_none = λ h f t n z e there same.
      let no = search_list_none (λ k. t.hash_of k == h && f k) t.list n z e there in ground arith;
  unique_some = λ h n f t nz. ground arith;
  unique_none = λ h n f t z. ground arith;
  added = λ h n j t out. (refl, refl);
  added_distinct = λ h n t out d. ((out, d), refl);
  deleted = λ n j t there. rw there (refl, has-without n j t.list, refl);
  deleted_distinct =
      λ n t there d. rw there (IsDistinct-without n t.list d, length-without n t.list d there);
  missing = λ n t out. rw out refl;
  counts = λ t. refl;
  starts = λ t n r e. rw e refl;
  starts_empty = λ t e. rw e refl;
  goes_on = λ t xs n k r d e. rw e (after-middle xs n (k ∷ r) (rw e at d));
  ends = λ t xs n d e. rw e (after-middle xs n [] (rw e at d));
}

abbrev pub empty_chain : Chain
empty_chain = record { list = []; hash_of = λ _. 0 }
