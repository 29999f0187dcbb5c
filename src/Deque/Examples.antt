-- ===== src/Deque/Examples.antt =====
-- Runs of the deque over a pool of five nodes, and its theorems at a deque whose last push stopped.
use zwq_repos.Prelude.{
  ℕ, ◌+◌, ◌≡◌, refl, Bool, false, not, ◌&&◌, ◌||◌, none, some, [], ◌∷◌, ◌==◌, ltb, arith,
  if◌then◌else◌,
}
use zwq_repos.Deque.{lpush, NodePointer, Node, Pool, IsPool, Deque, new_deque}
use zwq_repos.Deque.Calls.{pop_left, pop_right, release}
use zwq_repos.Deque.State.{Sound, is_settled, left_pending}
use zwq_repos.Deque.Sequence.{
  pop_left-Sound, pop_right-Sound, pop_left-pop_right_empty, release-Sound,
}

-- The nodes 1, …, `top` were given out, and those of `used` are not given back.
record Five : Type 0 where
  top : ℕ
  used : ℕ → Bool

abbrev five : Pool Five
five = record {
  allocate = λ p.
      if ltb p.top 5
      then (p.top + 1, record { top = p.top + 1; used = λ j. j == (p.top + 1) || p.used j })
      else (0, p);
  deallocate = λ n p. record p { used = λ j. not (j == n) && p.used j };
}

abbrev given : Five → ℕ → Bool
given p j = ltb j (p.top + 1) && p.used j

five-IsPool : IsPool Five five given
five-IsPool = record {
  fresh = λ p ne. ground arith;
  allocated = λ p j ne. ground arith;
  refused = λ p j e. ground arith;
  deallocated = λ p n j h. ground arith;
}

abbrev null : NodePointer
null = record { ptr = 0; tag = 0 }

abbrev blank : ℕ → Node ℕ
blank j = record { left = null; right = null; data_ = 0 }

abbrev empty : Deque Five ℕ
empty = new_deque blank (record { top = 0; used = λ _. false })

empty-Sound : Sound given [] empty []
empty-Sound = is_settled [] (record {
  layout = record {
    nonnull = refl;
    distinct = tt;
    apart = λ j m. refl;
    owned = λ j. ground arith;
    leftmost = refl;
    rightmost = refl;
    holds = refl;
  };
  status = refl;
  rights = tt;
  lefts = tt;
})

-- The node 1 with 10 was pushed, then the node 2 with 20 to its left, whose thread has stopped before
-- it wrote the link from 1 to 2.
abbrev stopped : Deque Five ℕ
stopped = record {
  anchor = record { left = 2; right = 1; status = lpush; tag = 2 };
  nodes = λ j.
      if j == 2
      then record { left = null; right = record { ptr = 1; tag = 0 }; data_ = 20 }
      else if j == 1
      then record { left = null; right = null; data_ = 10 }
      else blank j;
  pool = record { top = 2; used = λ j. j == 2 || j == 1 };
}

stopped-Sound : Sound given [] stopped (20 ∷ 10 ∷ [])
stopped-Sound = left_pending 2 1 [] refl (record {
  layout = record {
    nonnull = refl;
    distinct = (refl, (refl, tt));
    apart = λ j m. absurd (ground arith);
    owned = λ j. ground arith;
    leftmost = refl;
    rightmost = refl;
    holds = refl;
  };
  rights = (refl, tt);
  lefts = tt;
})

pop_left-Sound_example :
    (t : Deque Five ℕ) × (pop_left five blank 2 stopped ≡ some (some 20, t))
    × Sound given [] t (10 ∷ [])
pop_left-Sound_example =
    pop_left-Sound five given blank five-IsPool 0 20 stopped (10 ∷ []) stopped-Sound

pop_right-Sound_example :
    (t : Deque Five ℕ) × (pop_right five blank 2 stopped ≡ some (some 10, t))
    × Sound given [] t (20 ∷ [])
pop_right-Sound_example =
    pop_right-Sound five given blank five-IsPool 0 10 stopped (20 ∷ []) stopped-Sound

empty_pops :
    (pop_left five blank 1 empty ≡ some (none, empty))
    × (pop_right five blank 1 empty ≡ some (none, empty))
empty_pops = pop_left-pop_right_empty five given blank 0 empty empty-Sound

release-Sound_example :
    (t : Deque Five ℕ) × (release five blank 3 stopped ≡ some t) × Sound given [] t []
release-Sound_example =
    release-Sound five given blank five-IsPool stopped (20 ∷ 10 ∷ []) stopped-Sound
