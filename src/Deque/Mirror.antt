-- ===== src/Deque/Mirror.antt =====
-- detail-dev/deque.hpp: the functions of the right end are those of the left end with left and right
-- exchanged.
use zwq_repos.Prelude.{
  ℕ, ◌+◌, ◌%◌, ◌^◌, ◌≡◌, refl, ap, fun_ext, ==_refl, true, arith, ◌==◌, if◌then◌else◌, Bool-cases,
  inl, inr, ◌∙◌,
}
use zwq_repos.Deque.{
  Status, stable, rpush, lpush, NodePointer, Node, Anchor, equal, equal_status, Deque, set_node,
  stabilized, install, stabilize_left, stabilize_right, stabilize,
}

abbrev pub mirror_status : Status → Status
mirror_status stable = stable
mirror_status rpush = lpush
mirror_status lpush = rpush

pub mirror_status-mirror_status : (t : Status) → mirror_status (mirror_status t) ≡ t
mirror_status-mirror_status stable = refl
mirror_status-mirror_status rpush = refl
mirror_status-mirror_status lpush = refl

abbrev pub mirror_anchor : Anchor → Anchor
mirror_anchor a = record {
  left = a.right;
  right = a.left;
  status = mirror_status a.status;
  tag = a.tag;
}

abbrev pub mirror_node : {T : Type 0} → Node T → Node T
mirror_node c = record c { left = c.right; right = c.left }

abbrev pub mirror : {P T : Type 0} → Deque P T → Deque P T
mirror s = record s { anchor = mirror_anchor s.anchor; nodes = λ j. mirror_node (s.nodes j) }

pub equal_refl : (a : Anchor) → equal a a ≡ true
equal_refl a = ground (arith, equal_status_refl a.status)
  where
    equal_status_refl : (t : Status) → equal_status t t ≡ true
    equal_status_refl stable = refl
    equal_status_refl rpush = refl
    equal_status_refl lpush = refl

module _ {P T : Type 0} where
  pub mirror-set_node :
      (n : ℕ) (c : Node T) (s : Deque P T)
      → mirror (set_node n c s) ≡ set_node n (mirror_node c) (mirror s)
  mirror-set_node n c s =
      ap (λ nodes. record (mirror s) { nodes = nodes }) (fun_ext (λ j. ground arith))

  pub mirror-mirror : (s : Deque P T) → mirror (mirror s) ≡ s
  mirror-mirror s = rw (mirror_status-mirror_status s.anchor.status) refl

  -- What `stabilize_left` does where nobody interferes.
  abbrev pub settled_left : Deque P T → Deque P T
  settled_left s =
      let lrs = s.anchor in
      let prev = (s.nodes lrs.left).right.ptr in
      let c = s.nodes prev in
      let back : NodePointer = record { ptr = lrs.left; tag = (c.left.tag + 1) % 2 ^ 16 } in
      install (stabilized lrs)
        (if c.left.ptr == lrs.left then s else set_node prev (record c { left = back }) s)

  pub stabilize_left_lem : (s : Deque P T) → stabilize_left s.anchor s ≡ settled_left s
  unfolding stabilize_left
  stabilize_left_lem s =
      let p = (s.nodes (s.nodes s.anchor.left).right.ptr).left in
      rw (equal_refl s.anchor, ==_refl p.ptr, ==_refl p.tag) (ground arith)

  abbrev settled_right : Deque P T → Deque P T
  settled_right s =
      let lrs = s.anchor in
      let prev = (s.nodes lrs.right).left.ptr in
      let c = s.nodes prev in
      let back : NodePointer = record { ptr = lrs.right; tag = (c.right.tag + 1) % 2 ^ 16 } in
      install (stabilized lrs)
        (if c.right.ptr == lrs.right then s else set_node prev (record c { right = back }) s)

  pub settled_left-mirror :
      (s : Deque P T) → mirror (mirror (settled_left (mirror (mirror s)))) ≡ settled_left s
  settled_left-mirror s =
      mirror-mirror (settled_left (mirror (mirror s))) ∙ ap settled_left (mirror-mirror s)

  settled_right-mirror : (s : Deque P T) → settled_right s ≡ mirror (settled_left (mirror s))
  settled_right-mirror s =
      let p = (s.nodes (s.nodes s.anchor.right).left.ptr).right in
      elim (Bool-cases (p.ptr == s.anchor.right)) [
        | inl e ↦ rw e refl
        | inr e ↦ rw e (
            ap (λ nodes. record (install (stabilized s.anchor) s) { nodes = nodes })
              (fun_ext (λ j. ground arith)))
      ]

  pub stabilize_right_lem :
      (s : Deque P T) → stabilize_right s.anchor s ≡ mirror (settled_left (mirror s))
  unfolding stabilize_right
  stabilize_right_lem s =
      let p = (s.nodes (s.nodes s.anchor.right).left.ptr).right in
      let direct : stabilize_right s.anchor s ≡ settled_right s =
        rw (equal_refl s.anchor, ==_refl p.ptr, ==_refl p.tag) (ground arith) in
      direct ∙ settled_right-mirror s

  -- What `stabilize` does where nobody interferes.
  abbrev pub settled : Status → Deque P T → Deque P T
  settled rpush s = mirror (settled_left (mirror s))
  settled _ s = settled_left s

  pub stabilize_lem : (s : Deque P T) → stabilize s.anchor s ≡ settled s.anchor.status s
  unfolding stabilize
  stabilize_lem s = by_status s.anchor.status
    where
      by_status :
          (t : Status)
          → (elim t [ rpush ↦ stabilize_right s.anchor s | _ ↦ stabilize_left s.anchor s ])
            ≡ settled t s
      by_status stable = stabilize_left_lem s
      by_status rpush = stabilize_right_lem s
      by_status lpush = stabilize_left_lem s
