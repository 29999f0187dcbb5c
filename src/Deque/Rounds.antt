-- ===== src/Deque/Rounds.antt =====
-- detail-dev/deque.hpp: the rounds of push and pop where nobody interferes, and the rounds of the
-- right end as those of the left end of the mirrored deque.
use zwq_repos.Prelude.{
  ℕ, ◌≡◌, refl, sym, ap, fun_ext, Bool, true, false, Option, none, some, arith, ◌==◌, if◌then◌else◌,
  ◌∙◌,
}
use zwq_repos.Deque.{
  Status, stable, rpush, lpush, NodePointer, Node, Anchor, Pool, Deque, set_node, install, next_tag,
  both_ends, is_stable,
}
use zwq_repos.Deque.Calls.{
  push_left_round, push_right_round, pop_left_round, pop_right_round, dealloc_node,
}
use zwq_repos.Deque.Mirror.{
  mirror_status, mirror_node, mirror, equal_refl, mirror_status-mirror_status, mirror-set_node,
  mirror-mirror, settled_left, settled_left-mirror, settled, stabilize_left_lem,
  stabilize_right_lem, stabilize_lem,
}

module _ {P T : Type 0} where
  -- A round of `push_left` where nobody interferes, by whether the deque is empty and its status.
  abbrev pub settled_push : Bool → Status → ℕ → Deque P T → Option Bool × Deque P T
  settled_push is_empty status n s =
      let lrs = s.anchor in
      let linked =
        set_node n (record (s.nodes n) { right = record { ptr = lrs.left; tag = 0 } }) s in
      let new_anchor : Anchor = record lrs { left = n; status = lpush; tag = next_tag lrs.tag } in
      if is_empty
      then (some true, install (both_ends n lrs) s)
      else if is_stable status
      then (some true, settled_left (install new_anchor linked))
      else (none, settled status s)

  pub push_left_round_lem :
      (n : ℕ) (s : Deque P T)
      → push_left_round n s ≡ settled_push (s.anchor.left == 0) s.anchor.status n s
  unfolding push_left_round
  push_left_round_lem n s =
      let lrs = s.anchor in
      let linked =
        set_node n (record (s.nodes n) { right = record { ptr = lrs.left; tag = 0 } }) s in
      let new_anchor : Anchor = record lrs { left = n; status = lpush; tag = next_tag lrs.tag } in
      let step = stabilize_left_lem (install new_anchor linked) in
      rw (equal_refl s.anchor, step, stabilize_lem s) refl

  abbrev pub mirrored : {R : Type 0} → R × Deque P T → R × Deque P T
  mirrored r = (r.0, mirror r.1)

  -- What a round for the right end does, in terms of `settled` on both sides.
  abbrev turned_push : Bool → Status → ℕ → Deque P T → Option Bool × Deque P T
  turned_push is_empty status n s =
      let lrs = s.anchor in
      let linked =
        set_node n (record (s.nodes n) { left = record { ptr = lrs.right; tag = 0 } }) s in
      let new_anchor : Anchor = record lrs { right = n; status = rpush; tag = next_tag lrs.tag } in
      if is_empty
      then (some true, install (both_ends n lrs) s)
      else if is_stable status
      then (some true, mirror (settled_left (mirror (install new_anchor linked))))
      else (none, settled status s)

  turned_push-mirror :
      (is_empty : Bool) (status : Status) (n : ℕ) (s : Deque P T)
      → turned_push is_empty status n s
        ≡ mirrored (settled_push is_empty (mirror_status status) n (mirror s))
  turned_push-mirror true status n s = rw (mirror_status-mirror_status s.anchor.status) refl
  turned_push-mirror false stable n s =
      let new_anchor : Anchor = record s.anchor {
        right = n;
        status = rpush;
        tag = next_tag s.anchor.tag;
      } in
      let link : NodePointer = record { ptr = s.anchor.right; tag = 0 } in
      let linked = set_node n (record (s.nodes n) { left = link }) s in
      let same : (mirror linked).nodes
          ≡ (set_node n (record (mirror_node (s.nodes n)) { right = link }) (mirror s)).nodes =
        ap (λ (t : Deque P T). t.nodes)
          (mirror-set_node n (record (s.nodes n) { left = link }) s) in
      ap
        (λ nodes. (
          some true,
          mirror (settled_left (record (mirror (install new_anchor s)) { nodes = nodes })),
        ))
        same
  turned_push-mirror false rpush n s = refl
  turned_push-mirror false lpush n s = ap (λ u. (none, u)) (sym (settled_left-mirror s))

  pub push_right_round_lem :
      (n : ℕ) (s : Deque P T)
      → push_right_round n s
        ≡ mirrored (settled_push (s.anchor.right == 0) (mirror_status s.anchor.status) n (mirror s))
  unfolding push_right_round
  push_right_round_lem n s =
      let lrs = s.anchor in
      let linked =
        set_node n (record (s.nodes n) { left = record { ptr = lrs.right; tag = 0 } }) s in
      let new_anchor : Anchor = record lrs { right = n; status = rpush; tag = next_tag lrs.tag } in
      let step = stabilize_right_lem (install new_anchor linked) in
      let direct : push_right_round n s ≡ turned_push (s.anchor.right == 0) s.anchor.status n s =
        rw (equal_refl s.anchor, step, stabilize_lem s) refl in
      direct ∙ turned_push-mirror (s.anchor.right == 0) s.anchor.status n s

module _ {P T : Type 0} (m : Pool P) where
  -- A round of `pop_left` where nobody interferes, by whether the deque is empty, whether it has one
  -- node, and its status.
  abbrev pub settled_pop :
      (ℕ → Node T) → Bool → Bool → Status → Deque P T → Option (Option T) × Deque P T
  settled_pop junk is_empty is_single status s =
      let lrs = s.anchor in
      let r = (s.nodes lrs.left).data_ in
      let prev = (s.nodes lrs.left).right in
      let moved : Anchor = record lrs { left = prev.ptr; tag = next_tag lrs.tag } in
      if is_empty
      then (some none, s)
      else if is_single
      then (some (some r), dealloc_node m junk lrs.left (install (both_ends 0 lrs) s))
      else if is_stable status
      then (some (some r), dealloc_node m junk lrs.left (install moved s))
      else (none, settled status s)

  pub pop_left_round_lem :
      (junk : ℕ → Node T) (s : Deque P T)
      → pop_left_round m junk s
        ≡ settled_pop junk (s.anchor.left == 0) (s.anchor.left == s.anchor.right) s.anchor.status s
  unfolding pop_left_round
  pop_left_round_lem junk s = rw (equal_refl s.anchor, stabilize_lem s) refl

  mirror-dealloc_node :
      (junk : ℕ → Node T) (n : ℕ) (s : Deque P T)
      → dealloc_node m junk n s ≡ mirror (dealloc_node m (λ j. mirror_node (junk j)) n (mirror s))
  unfolding dealloc_node
  mirror-dealloc_node junk n s = rw (mirror_status-mirror_status s.anchor.status) (
      ap (λ nodes. record s { nodes = nodes; pool = m.deallocate n s.pool })
        (fun_ext (λ j. ground arith)))

  -- What a round for the right end does, in terms of the left end on the other side.
  abbrev turned_pop :
      (ℕ → Node T) → Bool → Bool → Status → Deque P T → Option (Option T) × Deque P T
  turned_pop junk is_empty is_single status s =
      let lrs = s.anchor in
      let r = (s.nodes lrs.right).data_ in
      let prev = (s.nodes lrs.right).left in
      let moved : Anchor = record lrs { right = prev.ptr; tag = next_tag lrs.tag } in
      let dealloc = λ (t : Deque P T).
        mirror (dealloc_node m (λ j. mirror_node (junk j)) lrs.right (mirror t)) in
      if is_empty
      then (some none, s)
      else if is_single
      then (some (some r), dealloc (install (both_ends 0 lrs) s))
      else if is_stable status
      then (some (some r), dealloc (install moved s))
      else (none, settled status s)

  turned_pop-mirror :
      (junk : ℕ → Node T) (is_empty is_single : Bool) (status : Status) (s : Deque P T)
      → turned_pop junk is_empty is_single status s
        ≡ mirrored (
            settled_pop
              (λ j. mirror_node (junk j))
              is_empty
              is_single
              (mirror_status status)
              (mirror s))
  turned_pop-mirror junk true is_single status s = ap (λ u. (some none, u)) (sym (mirror-mirror s))
  turned_pop-mirror junk false true status s = refl
  turned_pop-mirror junk false false stable s = refl
  turned_pop-mirror junk false false rpush s = refl
  turned_pop-mirror junk false false lpush s = ap (λ u. (none, u)) (sym (settled_left-mirror s))

  pub pop_right_round_lem :
      (junk : ℕ → Node T) (s : Deque P T)
      → pop_right_round m junk s
        ≡ mirrored (
            settled_pop
              (λ j. mirror_node (junk j))
              (s.anchor.right == 0)
              (s.anchor.right == s.anchor.left)
              (mirror_status s.anchor.status)
              (mirror s))
  unfolding pop_right_round
  pop_right_round_lem junk s =
      let lrs = s.anchor in
      let prev = (s.nodes lrs.right).left in
      let moved : Anchor = record lrs { right = prev.ptr; tag = next_tag lrs.tag } in
      let direct : pop_right_round m junk s
          ≡ turned_pop junk (s.anchor.right == 0) (s.anchor.right == s.anchor.left) s.anchor.status
              s =
        rw
          (
            equal_refl s.anchor,
            stabilize_lem s,
            mirror-dealloc_node junk lrs.right (install (both_ends 0 lrs) s),
            mirror-dealloc_node junk lrs.right (install moved s),
          )
          refl in
      direct
      ∙ turned_pop-mirror junk (s.anchor.right == 0) (s.anchor.right == s.anchor.left)
          s.anchor.status s
