-- ===== src/CacheFreelist/Owned.antt =====
-- detail-dev/freelist.hpp, `cache_freelist`: a client of the freelist on one thread, its calls, and
-- the storage that it and the freelist own between them.
use zwq_repos.Prelude.{
  ℕ, zero, suc, ◌≡◌, ◌≢◌, refl, sym, subst, Bool, true, false, ◌||◌, Option, none, some, List, [],
  ◌∷◌, arith, has, IsDistinct, ◌==◌, if◌then◌else◌, Option-cases, inl, inr,
}
use zwq_repos.CacheFreelist.{
  TaggedNodePtr, Alloc, IsAlloc, Cell, object, Cache, Mode, threadsafe, write, deallocate,
  construct, destruct, reserve, construct_loop, cache_freelist,
}
use zwq_repos.CacheFreelist.Stack.{
  Holds, deallocate-Holds, construct-Holds_cons, construct-Holds_nil, give_back,
}

-- A freelist, and the objects that its client has constructed and not yet destructed.
pub record Client (A T : Type 0) : Type 0 where
  pub list : Cache A T
  pub live : ℕ → Option T

abbrev pub is_live : {T : Type 0} → Option T → Bool
is_live none = false
is_live (some t) = true

module _ {A T : Type 0} (m : Alloc A) (raw : T → TaggedNodePtr) where
  abbrev pub after_construct : Mode → Bool → T → Client A T → Client A T
  after_construct mode bounded arg s =
      let (node, list) = construct m raw mode bounded arg s.list in
      record {
        list = list;
        live = λ j. if node == 0 then s.live j else if j == node then some arg else s.live j;
      }

  abbrev pub after_destruct : Mode → ℕ → Client A T → Client A T
  after_destruct mode n s = record {
    list = destruct raw mode n s.list;
    live = λ j. if j == n then none else s.live j;
  }

  abbrev pub after_reserve : Mode → ℕ → Client A T → Client A T
  after_reserve mode count s = record s { list = reserve m raw mode count s.list }

  -- A client destructs only what is live.
  pub data Step (s : Client A T) : Client A T → Type 0 where
    constructs :
        (mode : Mode) (bounded : Bool) (arg : T) → Step s (after_construct mode bounded arg s)
    destructs : (mode : Mode) (n : ℕ) (t : T) → s.live n ≡ some t → Step s (after_destruct mode n s)
    reserves : (mode : Mode) (count : ℕ) → Step s (after_reserve mode count s)

  pub data Reach (s : Client A T) : Client A T → Type 0 where
    here : Reach s s
    next : {t u : Client A T} → Reach s t → Step t u → Reach s u

  -- A new freelist with `n` nodes, of which nothing is live.
  abbrev pub start : (ℕ → ℕ) → ℕ → (ℕ → Cell T) → A → Client A T
  start failures n memory a = record {
    list = cache_freelist m raw failures n memory a;
    live = λ _. none;
  }

module _ {A T : Type 0} (m : Alloc A) (raw : T → TaggedNodePtr) (outstanding : A → ℕ → Bool) where
  -- `xs` are the free nodes. With the live ones they are what the allocator has given out.
  pub record IsOwned (s : Cache A T) (live : ℕ → Option T) (xs : List ℕ) : Type 0 where
    pub holds : Holds raw s xs
    pub owned : (j : ℕ) → outstanding s.alloc j ≡ (has j xs || is_live (live j))
    pub apart : (j : ℕ) → has j xs ≡ true → live j ≡ none
    pub kept : (j : ℕ) (t : T) → live j ≡ some t → (j ≢ 0) × (s.memory j ≡ object t)

  -- A node that is allocated and pushed.
  IsOwned-adopt :
      IsAlloc A m outstanding
      → (mode : Mode) (s : Cache A T) (live : ℕ → Option T) (xs : List ℕ) → IsOwned s live xs
      → IsOwned
          (deallocate raw mode (m.allocate s.alloc).0 (record s { alloc = (m.allocate s.alloc).1 }))
          live
          ((m.allocate s.alloc).0 ∷ xs)
  IsOwned-adopt laws mode s live xs o =
      let p = (m.allocate s.alloc).0 in
      let fresh = laws.fresh s.alloc in
      let mine = o.owned p in
      let (holds, kept, others) =
        deallocate-Holds raw mode p (record s { alloc = (m.allocate s.alloc).1 }) xs
          (record { chain = o.holds.chain; distinct = o.holds.distinct }) (laws.nonnull s.alloc)
          (ground arith) in
      record {
        holds = holds;
        owned = λ j. rw kept (ground (arith, laws.allocated s.alloc j, o.owned j));
        apart = λ j h. ground (arith, o.apart j);
        kept = λ j t l. ground (arith, o.kept j t, others j);
      }

  IsOwned-reserve :
      IsAlloc A m outstanding
      → (mode : Mode) (count : ℕ) (s : Cache A T) (live : ℕ → Option T) (xs : List ℕ)
      → IsOwned s live xs
      → (ys : List ℕ) × IsOwned (reserve m raw mode count s) live ys
  unfolding reserve
  IsOwned-reserve laws mode zero s live xs o = (xs, o)
  IsOwned-reserve laws mode (suc count) s live xs o =
      IsOwned-reserve laws mode count _ live _ (IsOwned-adopt laws mode s live xs o)

  IsOwned-construct_loop :
      IsAlloc A m outstanding
      → (failures : ℕ → ℕ) (n : ℕ) (s : Cache A T) (live : ℕ → Option T) (xs : List ℕ)
      → IsOwned s live xs
      → (ys : List ℕ) × IsOwned (construct_loop m raw failures n s) live ys
  unfolding construct_loop destruct
  IsOwned-construct_loop laws failures zero s live xs o = (xs, o)
  IsOwned-construct_loop laws failures (suc n) s live xs o =
      IsOwned-construct_loop laws failures n _ live _
        (IsOwned-adopt laws (threadsafe (failures n)) s live xs o)

  IsOwned-construct :
      IsAlloc A m outstanding
      → (mode : Mode) (bounded : Bool) (arg : T) (s : Client A T) (xs : List ℕ)
      → IsOwned s.list s.live xs
      → (ys : List ℕ) × IsOwned
          (after_construct m raw mode bounded arg s).list
          (after_construct m raw mode bounded arg s).live
          ys
  IsOwned-construct laws mode bounded arg s [] o =
      let e =
        construct-Holds_nil m raw mode bounded arg s.list o.holds (laws.nonnull s.list.alloc) in
      let After = λ (r : ℕ × Cache A T).
        IsOwned r.1 (λ j. if r.0 == 0 then s.live j else if j == r.0 then some arg else s.live j)
          [] in
      ([], subst After (sym e) (construct_nil bounded))
    where
      construct_nil :
          (b : Bool)
          → (let r : ℕ × Cache A T = if b then (0, s.list) else (
            (m.allocate s.list.alloc).0,
            write
                (record s.list { alloc = (m.allocate s.list.alloc).1 })
                (m.allocate s.list.alloc).0
                (object arg),
          ) in
              IsOwned r.1
                (λ j. if r.0 == 0 then s.live j else if j == r.0 then some arg else s.live j)
                [])
      construct_nil true = o
      construct_nil false =
          let p = (m.allocate s.list.alloc).0 in
          let fresh = laws.fresh s.list.alloc in
          let nz = laws.nonnull s.list.alloc in
          record {
            holds = record { chain = o.holds.chain; distinct = tt };
            owned = λ j. ground (arith, laws.allocated s.list.alloc j, o.owned j);
            apart = λ j h. absurd (ground arith);
            kept = λ j t l. ground (arith, o.kept j t);
          }
  IsOwned-construct laws mode bounded arg s (x ∷ xs) o =
      let (got, holds, there, others, same) =
        construct-Holds_cons m raw mode bounded arg s.list x xs o.holds in
      let out = o.holds.distinct.0 in
      let nz = o.holds.chain.1 in
      (
        xs,
        record {
          holds = holds;
          owned = λ j. rw (same, got) (ground (arith, o.owned j, o.apart j));
          apart = λ j h. rw got (ground (arith, o.apart j));
          kept = λ j t l. ground (arith, got, others j, there, o.kept j t, o.apart x);
        },
      )

  IsOwned-destruct :
      (mode : Mode) (n : ℕ) (t : T) (s : Client A T) (xs : List ℕ)
      → IsOwned s.list s.live xs
      → s.live n ≡ some t
      → IsOwned (after_destruct m raw mode n s).list (after_destruct m raw mode n s).live (n ∷ xs)
  unfolding destruct
  IsOwned-destruct mode n t s xs o l =
      let (nz, there) = o.kept n t l in
      let out : has n xs ≡ false = ground (arith, o.apart n) in
      let (holds, same, others) = deallocate-Holds raw mode n s.list xs o.holds nz out in
      record {
        holds = holds;
        owned = λ j. rw same (ground (arith, o.owned j));
        apart = λ j h. ground (arith, o.apart j);
        kept = λ j u m'. ground (arith, o.kept j u, others j);
      }

  live_null :
      (s : Cache A T) (live : ℕ → Option T) (xs : List ℕ) → IsOwned s live xs → live 0 ≡ none
  live_null s live xs o = elim (Option-cases (live 0)) [
    | inl e ↦ e
    | inr (t, e) ↦ absurd ((o.kept 0 t e).0 refl)
  ]

  pub construct_unused :
      IsAlloc A m outstanding
      → (mode : Mode) (bounded : Bool) (arg : T) (s : Client A T) (xs : List ℕ)
      → IsOwned s.list s.live xs
      → (s.live (construct m raw mode bounded arg s.list).0 ≡ none)
        × ((construct m raw mode bounded arg s.list).0 ≡ 0 → bounded ≡ true)
  construct_unused laws mode bounded arg s [] o =
      let p = (m.allocate s.list.alloc).0 in
      let e =
        construct-Holds_nil m raw mode bounded arg s.list o.holds (laws.nonnull s.list.alloc) in
      let free : s.live p ≡ none = ground (arith, o.owned p, laws.fresh s.list.alloc) in
      ground (arith, e, free, laws.nonnull s.list.alloc, live_null s.list s.live [] o)
  construct_unused laws mode bounded arg s (x ∷ xs) o =
      rw (construct-Holds_cons m raw mode bounded arg s.list x xs o.holds).0
        (o.apart x (ground arith), λ e. absurd (o.holds.chain.1 e))

  -- Giving back distinct nodes that are given out leaves the live ones.
  pub outstanding-give_back :
      IsAlloc A m outstanding
      → (live : ℕ → Option T) (xs : List ℕ) (a : A) (j : ℕ) → IsDistinct xs
      → ((i : ℕ) → outstanding a i ≡ (has i xs || is_live (live i)))
      → ((i : ℕ) → has i xs ≡ true → live i ≡ none)
      → outstanding (give_back m raw xs a) j ≡ is_live (live j)
  outstanding-give_back laws live [] a j d owned apart = owned j
  outstanding-give_back laws live (x ∷ xs) a j d owned apart =
      let mine : outstanding a x ≡ true = ground (arith, owned x) in
      outstanding-give_back laws live xs (m.deallocate x a) j d.1
        (λ i. ground (arith, laws.deallocated a x i mine, owned i, apart x, d.0))
        (λ i h. apart i (ground arith))

  pub IsOwned-Reach :
      {s t : Client A T}
      → IsAlloc A m outstanding
      → ((xs : List ℕ) × IsOwned s.list s.live xs)
      → Reach m raw s t
      → (ys : List ℕ) × IsOwned t.list t.live ys
  IsOwned-Reach laws o here = o
  IsOwned-Reach laws o (next r (constructs mode bounded arg)) =
      let (xs, owned) = IsOwned-Reach laws o r in IsOwned-construct laws mode bounded arg _ xs owned
  IsOwned-Reach laws o (next r (destructs mode n t l)) =
      let (xs, owned) = IsOwned-Reach laws o r in (n ∷ xs, IsOwned-destruct mode n t _ xs owned l)
  IsOwned-Reach laws o (next r (reserves mode count)) =
      let (xs, owned) = IsOwned-Reach laws o r in IsOwned-reserve laws mode count _ _ xs owned

  pub IsOwned-start :
      IsAlloc A m outstanding
      → (failures : ℕ → ℕ) (n : ℕ) (memory : ℕ → Cell T) (a : A)
      → ((j : ℕ) → outstanding a j ≡ false)
      → (xs : List ℕ) × IsOwned (cache_freelist m raw failures n memory a) (λ _. none) xs
  unfolding cache_freelist
  IsOwned-start laws failures n memory a empty =
      IsOwned-construct_loop laws failures n _ (λ _. none) []
        (record {
          holds = record { chain = refl; distinct = tt };
          owned = empty;
          apart = λ j h. refl;
          kept = λ j t l. absurd (ground arith);
        })
