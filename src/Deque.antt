-- ===== src/Deque.antt =====
-- detail-dev/deque.hpp: a deque of nodes with links in both directions, and an anchor with both
-- ends, a status and a tag. A pointer is a number, 0 for null. Tags have 16 bits, as in
-- detail-dev/tagged_ptr_ptrcompression.hpp and detail-dev/tagged_ptr_pair.hpp, and the status is a
-- data type. The pool of the nodes is a parameter. One thread runs, from any state in which the
-- others may have stopped.
pub mod Calls
mod Links
pub mod State
mod Settle
mod Frame
mod Mirror
mod Rounds
mod Ends
pub mod Sequence
mod Examples
use zwq_repos.Prelude.{
  ℕ, zero, suc, ◌+◌, ◌%◌, ◌^◌, ◌≢◌, ◌≡◌, Bool, true, false, not, ◌&&◌, ◌||◌, Option, none, some,
  ◌==◌, if◌then◌else◌,
}

-- `deque_status_type`
pub data Status : Type 0 where
  stable rpush lpush : Status

abbrev pub equal_status : Status → Status → Bool
equal_status stable stable = true
equal_status rpush rpush = true
equal_status lpush lpush = true
equal_status _ _ = false

pub record NodePointer : Type 0 where
  pub ptr : ℕ
  pub tag : ℕ

-- `deque_node`
pub record Node (T : Type 0) : Type 0 where
  pub left : NodePointer
  pub right : NodePointer
  pub data_ : T

-- `deque_anchor`: the status is its left tag.
pub record Anchor : Type 0 where
  pub left : ℕ
  pub right : ℕ
  pub status : Status
  pub tag : ℕ

abbrev pub equal : Anchor → Anchor → Bool
equal a b =
    a.left == b.left && a.right == b.right && equal_status a.status b.status && a.tag == b.tag

abbrev pub next_tag : ℕ → ℕ
next_tag t = (t + 1) % 2 ^ 16

-- `stable` with the ends of `lrs` and the next tag.
abbrev pub stabilized : Anchor → Anchor
stabilized lrs = record lrs { status = stable; tag = next_tag lrs.tag }

abbrev pub is_stable : Status → Bool
is_stable stable = true
is_stable _ = false

-- The anchor of a deque with the node `n` only, or empty with `n` null.
abbrev pub both_ends : ℕ → Anchor → Anchor
both_ends n lrs = record lrs { left = n; right = n; tag = next_tag lrs.tag }

-- `pool_.allocate()`, null when it has no node, and `pool_.deallocate(n)`, on a pool's state.
pub record Pool (P : Type 0) : Type 0 where
  pub allocate : P → ℕ × P
  pub deallocate : ℕ → P → P

-- What a pool promises, where `in_use` tells the nodes that are given out.
pub record IsPool (P : Type 0) (m : Pool P) (in_use : P → ℕ → Bool) : Type 0 where
  pub fresh : (p : P) → (m.allocate p).0 ≢ 0 → in_use p (m.allocate p).0 ≡ false
  pub allocated :
      (p : P) (j : ℕ)
      → (m.allocate p).0 ≢ 0
      → in_use (m.allocate p).1 j ≡ (j == (m.allocate p).0 || in_use p j)
  pub refused : (p : P) (j : ℕ) → (m.allocate p).0 ≡ 0 → in_use (m.allocate p).1 j ≡ in_use p j
  pub deallocated :
      (p : P) (n j : ℕ)
      → in_use p n ≡ true
      → in_use (m.deallocate n p) j ≡ (not (j == n) && in_use p j)

pub record Deque (P T : Type 0) : Type 0 where
  pub anchor : Anchor
  pub nodes : ℕ → Node T
  pub pool : P

abbrev pub install : {P T : Type 0} → Anchor → Deque P T → Deque P T
install a s = record s { anchor = a }

module _ {P T : Type 0} where
  abbrev pub set_node : ℕ → Node T → Deque P T → Deque P T
  set_node n c s = record s { nodes = λ j. if j == n then c else s.nodes j }

  -- `anchor_.cas(expected, desired)`
  abbrev pub cas : Anchor → Anchor → Deque P T → Bool × Deque P T
  cas expected desired s = if equal s.anchor expected then (true, install desired s) else (false, s)

  -- `n->left.compare_exchange_strong(expected, node_pointer(p, expected.get_tag() + 1))`
  abbrev pub cas_left : ℕ → NodePointer → ℕ → Deque P T → Bool × Deque P T
  cas_left n expected p s =
      let c = s.nodes n in
      if c.left.ptr == expected.ptr && c.left.tag == expected.tag
      then (
        true,
        set_node n (record c { left = record { ptr = p; tag = next_tag expected.tag } }) s,
      )
      else (false, s)

  abbrev pub cas_right : ℕ → NodePointer → ℕ → Deque P T → Bool × Deque P T
  cas_right n expected p s =
      let c = s.nodes n in
      if c.right.ptr == expected.ptr && c.right.tag == expected.tag
      then (
        true,
        set_node n (record c { right = record { ptr = p; tag = next_tag expected.tag } }) s,
      )
      else (false, s)

  unfoldable pub stabilize_left : Anchor → Deque P T → Deque P T
  stabilize_left lrs s =
      let prev = (s.nodes lrs.left).right in
      let prevnext = (s.nodes prev.ptr).left in
      let (linked, s') = cas_left prev.ptr prevnext lrs.left s in
      if not (equal s.anchor lrs)
      then s
      else if prevnext.ptr == lrs.left
      then (cas lrs (stabilized lrs) s).1
      else if not (equal s.anchor lrs)
      then s
      else if not linked
      then s'
      else (cas lrs (stabilized lrs) s').1

  unfoldable pub stabilize_right : Anchor → Deque P T → Deque P T
  stabilize_right lrs s =
      let prev = (s.nodes lrs.right).left in
      let prevnext = (s.nodes prev.ptr).right in
      let (linked, s') = cas_right prev.ptr prevnext lrs.right s in
      if not (equal s.anchor lrs)
      then s
      else if prevnext.ptr == lrs.right
      then (cas lrs (stabilized lrs) s).1
      else if not (equal s.anchor lrs)
      then s
      else if not linked
      then s'
      else (cas lrs (stabilized lrs) s').1

  unfoldable pub stabilize : Anchor → Deque P T → Deque P T
  stabilize lrs s = elim lrs.status [ rpush ↦ stabilize_right lrs s | _ ↦ stabilize_left lrs s ]

  -- The loops: a round gives `none` when the loop goes on. `none` when it is still running after so
  -- many rounds.
  abbrev pub run :
      {R : Type 0} → (Deque P T → Option R × Deque P T) → ℕ → Deque P T → Option (R × Deque P T)
  run round zero s = none
  run round (suc fuel) s = elim (round s).0 [
    | none ↦ run round fuel (round s).1
    | some r ↦ some (r, (round s).1)
  ]

-- The constructor.
abbrev pub new_deque : {P T : Type 0} → (ℕ → Node T) → P → Deque P T
new_deque nodes p = record {
  anchor = record { left = 0; right = 0; status = stable; tag = 0 };
  nodes = nodes;
  pool = p;
}
