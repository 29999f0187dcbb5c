-- ===== src/FixedFreelist/Clients.antt =====
-- detail-dev/freelist.hpp, `fixed_size_freelist`: what a client of `construct` and `destruct` on one
-- thread can rely on over any sequence of calls.
use zwq_repos.Prelude.{ℕ, ◌<◌, ◌≡◌, true, false, Option, none, some, List, ◌==◌, has, if◌then◌else◌}
use zwq_repos.FixedFreelist.{
  TaggedIndex, Cell, object, Freelist, construct, destruct, fixed_size_freelist,
}
use zwq_repos.FixedFreelist.Chain.{Holds}

-- A freelist, and the objects that its client has constructed and not yet destructed.
pub record Client (T : Type 0) : Type 0 where
  pub list : Freelist T
  pub live : ℕ → Option T

module _ {T : Type 0} where
  -- What `construct` may promise where the objects of `live` are in use.
  abbrev pub Grants : ℕ → Client T → Option ℕ → Type 0
  Grants count s (some i) = (i < count) × (s.live i ≡ none)
  Grants count s none = (j : ℕ) → j < count → (t : T) × (s.live j ≡ some t)

module _ {T : Type 0} (raw : T → TaggedIndex) where
  -- The client's record of a node that it was given.
  abbrev pub granted : Option ℕ → T → (ℕ → Option T) → ℕ → Option T
  granted none arg live j = live j
  granted (some i) arg live j = if j == i then some arg else live j

  abbrev pub after_construct : T → Client T → Client T
  after_construct arg s =
      let (node, list) = construct raw arg s.list in
      record { list = list; live = granted node arg s.live }

  abbrev pub after_destruct : ℕ → Client T → Client T
  after_destruct n s = record {
    list = destruct raw n s.list;
    live = λ j. if j == n then none else s.live j;
  }

  -- A client destructs only what is live.
  pub data Step (s : Client T) : Client T → Type 0 where
    constructs : (arg : T) → Step s (after_construct arg s)
    destructs : (n : ℕ) (t : T) → s.live n ≡ some t → Step s (after_destruct n s)

  pub data Reach (s : Client T) : Client T → Type 0 where
    here : Reach s s
    next : {t u : Client T} → Reach s t → Step t u → Reach s u

  -- `xs` are the free nodes: the others are live and hold their objects.
  record IsOwned (count : ℕ) (s : Client T) (xs : List ℕ) : Type 0 where
    holds : Holds raw s.list xs
    counted : s.list.node_count ≡ count
    free : (j : ℕ) → has j xs ≡ true → (j < count) × (s.live j ≡ none)
    taken : (j : ℕ) → j < count → has j xs ≡ false → (t : T) × (s.live j ≡ some t)
    kept :
        (j : ℕ) (t : T)
        → s.live j ≡ some t
        → (j < count) × (has j xs ≡ false) × (s.list.nodes j ≡ object t)

  -- A new freelist, of which nothing is live.
  abbrev pub fresh : ℕ → (ℕ → Cell T) → Client T
  fresh count memory = record { list = fixed_size_freelist raw count memory; live = λ _. none }
