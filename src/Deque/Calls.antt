-- ===== src/Deque/Calls.antt =====
-- detail-dev/deque.hpp: push and pop at both ends, round by round, and the destructor.
use zwq_repos.Prelude.{ℕ, zero, suc, Bool, true, false, Option, none, some, ◌==◌, if◌then◌else◌}
use zwq_repos.Deque.{
  NodePointer, Node, Anchor, lpush, rpush, Pool, Deque, set_node, cas, stabilize_left,
  stabilize_right, stabilize, run, is_stable, both_ends, next_tag,
}

module _ {P T : Type 0} where
  -- One round of `push_left` with the new node `n`.
  unfoldable pub push_left_round : ℕ → Deque P T → Option Bool × Deque P T
  push_left_round n s =
      let lrs = s.anchor in
      let (alone, s1) = cas lrs (both_ends n lrs) s in
      let linked =
        set_node n (record (s.nodes n) { right = record { ptr = lrs.left; tag = 0 } }) s in
      let new_anchor : Anchor = record lrs { left = n; status = lpush; tag = next_tag lrs.tag } in
      let (pushed, s2) = cas lrs new_anchor linked in
      if lrs.left == 0
      then (if alone then some true else none, s1)
      else if is_stable lrs.status
      then (if pushed then (some true, stabilize_left new_anchor s2) else (none, s2))
      else (none, stabilize lrs s)

  unfoldable pub push_right_round : ℕ → Deque P T → Option Bool × Deque P T
  push_right_round n s =
      let lrs = s.anchor in
      let (alone, s1) = cas lrs (both_ends n lrs) s in
      let linked =
        set_node n (record (s.nodes n) { left = record { ptr = lrs.right; tag = 0 } }) s in
      let new_anchor : Anchor = record lrs { right = n; status = rpush; tag = next_tag lrs.tag } in
      let (pushed, s2) = cas lrs new_anchor linked in
      if lrs.right == 0
      then (if alone then some true else none, s1)
      else if is_stable lrs.status
      then (if pushed then (some true, stabilize_right new_anchor s2) else (none, s2))
      else (none, stabilize lrs s)

-- `junk` is what a node holds after it is given back to the pool.
module _ {P T : Type 0} (m : Pool P) (junk : ℕ → Node T) where
  -- `alloc_node(0, 0, v)`: the node is written before its address is tested, also at null, where
  -- C++ leaves the effect undefined; nothing in the model reads the node 0.
  unfoldable pub alloc_node : T → Deque P T → ℕ × Deque P T
  alloc_node v s =
      let (chunk, p) = m.allocate s.pool in
      let null : NodePointer = record { ptr = 0; tag = 0 } in
      (
        chunk,
        set_node chunk (record { left = null; right = null; data_ = v }) (record s { pool = p }),
      )

  unfoldable pub dealloc_node : ℕ → Deque P T → Deque P T
  dealloc_node n s = record (set_node n (junk n) s) { pool = m.deallocate n s.pool }

  unfoldable pub push_left : ℕ → T → Deque P T → Option (Bool × Deque P T)
  unfolding alloc_node
  push_left fuel v s =
      let (n, s') = alloc_node v s in
      if n == 0 then some (false, s') else run (push_left_round n) fuel s'

  unfoldable pub push_right : ℕ → T → Deque P T → Option (Bool × Deque P T)
  unfolding alloc_node
  push_right fuel v s =
      let (n, s') = alloc_node v s in
      if n == 0 then some (false, s') else run (push_right_round n) fuel s'

  -- One round of `pop_left`; the result is `none` inside where the code returns false.
  unfoldable pub pop_left_round : Deque P T → Option (Option T) × Deque P T
  unfolding dealloc_node
  pop_left_round s =
      let lrs = s.anchor in
      let r = (s.nodes lrs.left).data_ in
      let (emptied, s1) = cas lrs (both_ends 0 lrs) s in
      let prev = (s.nodes lrs.left).right in
      let (popped, s2) = cas lrs (record lrs { left = prev.ptr; tag = next_tag lrs.tag }) s in
      if lrs.left == 0
      then (some none, s)
      else if lrs.left == lrs.right
      then (if emptied then (some (some r), dealloc_node lrs.left s1) else (none, s1))
      else if is_stable lrs.status
      then (if popped then (some (some r), dealloc_node lrs.left s2) else (none, s2))
      else (none, stabilize lrs s)

  unfoldable pub pop_right_round : Deque P T → Option (Option T) × Deque P T
  unfolding dealloc_node
  pop_right_round s =
      let lrs = s.anchor in
      let r = (s.nodes lrs.right).data_ in
      let (emptied, s1) = cas lrs (both_ends 0 lrs) s in
      let prev = (s.nodes lrs.right).left in
      let (popped, s2) = cas lrs (record lrs { right = prev.ptr; tag = next_tag lrs.tag }) s in
      if lrs.right == 0
      then (some none, s)
      else if lrs.right == lrs.left
      then (if emptied then (some (some r), dealloc_node lrs.right s1) else (none, s1))
      else if is_stable lrs.status
      then (if popped then (some (some r), dealloc_node lrs.right s2) else (none, s2))
      else (none, stabilize lrs s)

  abbrev pub pop_left : ℕ → Deque P T → Option (Option T × Deque P T)
  pop_left fuel s = run pop_left_round fuel s

  abbrev pub pop_right : ℕ → Deque P T → Option (Option T × Deque P T)
  pop_right fuel s = run pop_right_round fuel s

  -- The loop of the destructor. Two rounds end each `pop_left` (Deque/Ends.antt).
  unfoldable pub release : ℕ → Deque P T → Option (Deque P T)
  release zero s = none
  release (suc fuel) s = elim (pop_left 2 s) [
    | none ↦ none
    | some r ↦ elim r.0 [ none ↦ some r.1 | some _ ↦ release fuel r.1 ]
  ]
