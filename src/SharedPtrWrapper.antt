-- ===== src/SharedPtrWrapper.antt =====
-- utility/smart_ptr_wrapper.hpp: wrappers of std::shared_ptr and std::weak_ptr. A wrapper stands at an
-- address; what it points to is the number of an object with its `use_count`, `none` the null pointer.
-- std::shared_ptr counts as the standard says: a copy adds one, an end takes one away, and the object
-- is destroyed when the last one ends. The conversions between element types keep the object, so
-- that one definition stands for a member and its templates.
pub mod Balance
pub mod Steps
pub mod Swap
pub mod Weak
mod Examples
use zwq_repos.Prelude.{
  ℕ, ◌+◌, ◌-◌, Bool, true, false, not, ◌&&◌, Option, none, some, ◌==◌, if◌then◌else◌,
}

-- `shared` and `weak` are the `m_sp_ptr` and `m_wp_ptr` by address; `destroyed` tells how often an
-- object was destroyed; objects from `next` on do not exist yet.
pub record Heap : Type 0 where
  pub shared : ℕ → Option ℕ
  pub weak : ℕ → Option ℕ
  pub use_count : ℕ → ℕ
  pub destroyed : ℕ → ℕ
  pub next : ℕ

abbrev pub put : ℕ → Option ℕ → Heap → Heap
put x p h = record h { shared = λ j. if j == x then p else h.shared j }

abbrev pub put_weak : ℕ → Option ℕ → Heap → Heap
put_weak x p h = record h { weak = λ j. if j == x then p else h.weak j }

abbrev pub same : Option ℕ → Option ℕ → Bool
same none none = true
same none (some b) = false
same (some a) none = false
same (some a) (some b) = a == b

-- One more std::shared_ptr to what `p` points to, and one less.
abbrev pub retain : Option ℕ → Heap → Heap
retain p h = record h {
  use_count = λ o. if same p (some o) then h.use_count o + 1 else h.use_count o;
}

abbrev pub release : Option ℕ → Heap → Heap
release p h = record h {
  use_count = λ o. if same p (some o) then h.use_count o - 1 else h.use_count o;
  destroyed =
      λ o. if same p (some o) && h.use_count o == 1 then h.destroyed o + 1 else h.destroyed o;
}

-- std::make_shared, or a std::shared_ptr from a pointer that `new` gave.
abbrev pub make_shared : Heap → Option ℕ × Heap
make_shared h = (
  some h.next,
  record h { use_count = λ j. if j == h.next then 1 else h.use_count j; next = h.next + 1 },
)

-- The constructors of a wrapper at the empty storage `d`.
abbrev pub construct : ℕ → Heap → Heap
construct d h = let (p, h1) = make_shared h in put d p h1

abbrev pub copy_construct : ℕ → ℕ → Heap → Heap
copy_construct d x h = put d (h.shared x) (retain (h.shared x) h)

abbrev pub move_construct : ℕ → ℕ → Heap → Heap
move_construct d x h = put d (h.shared x) (put x none h)

-- The destructor.
abbrev pub destruct : ℕ → Heap → Heap
destruct x h = release (h.shared x) (put x none h)

-- The assignments from a wrapper or std::shared_ptr at `y`, from a new object, and from nullptr.
abbrev pub copy_assign : ℕ → ℕ → Heap → Heap
copy_assign x y h = release (h.shared x) (put x (h.shared y) (retain (h.shared y) h))

abbrev pub move_assign : ℕ → ℕ → Heap → Heap
move_assign x y h = let h1 = put y none h in release (h1.shared x) (put x (h.shared y) h1)

abbrev pub raw_assign : ℕ → Heap → Heap
raw_assign x h = let (p, h1) = make_shared h in release (h.shared x) (put x p h1)

abbrev pub null_assign : ℕ → Heap → Heap
null_assign x h = release (h.shared x) (put x none h)

abbrev pub get : ℕ → Heap → Option ℕ
get x h = h.shared x

-- `swap`: the inner exchange with a copy of `m_sp_ptr`, then the outer one with its result.
abbrev pub swap : ℕ → ℕ → Heap → Heap
swap x y h =
    let h1 = retain (h.shared x) h in
    let h2 = put y (h.shared x) h1 in release (h2.shared x) (put x (h.shared y) h2)

-- `load` and `convert`, into `d`.
abbrev pub load : ℕ → ℕ → Heap → Heap
load d x h = copy_construct d x h

-- `store` of the wrapper at `y`, with its parameter and the copy that std::atomic_store takes.
abbrev pub store : ℕ → ℕ → Heap → Heap
store x y h =
    let p = h.shared y in release p (release (h.shared x) (put x p (retain p (retain p h))))

-- `exchange`, its result into `d`.
abbrev pub exchange : ℕ → ℕ → ℕ → Heap → Heap
exchange d x y h =
    let p = h.shared y in release p (put d (h.shared x) (put x p (retain p (retain p h))))

-- `cas_weak` and `cas_strong`; a weak one may fail for no reason.
abbrev pub cas : Bool → ℕ → ℕ → ℕ → Heap → Bool × Heap
cas spurious x expected desired h =
    let p = h.shared desired in
    let h1 = retain p h in
    let current = h.shared x in
    if not spurious && same current (h.shared expected)
    then (true, release p (release current (put x p (retain p h1))))
    else (false, release p (release (h.shared expected) (put expected current (retain current h1))))

-- The constructors and assignments of the weak wrapper at `w` from a wrapper at `x` or a weak one at
-- `v`, and `reset`.
abbrev pub weak_assign : ℕ → ℕ → Heap → Heap
weak_assign w x h = put_weak w (h.shared x) h

abbrev pub weak_copy : ℕ → ℕ → Heap → Heap
weak_copy w v h = put_weak w (h.weak v) h

abbrev pub weak_move : ℕ → ℕ → Heap → Heap
weak_move w v h = put_weak w (h.weak v) (put_weak v none h)

abbrev pub reset : ℕ → Heap → Heap
reset w h = put_weak w none h

abbrev pub expired : Option ℕ → Heap → Bool
expired none h = true
expired (some o) h = h.use_count o == 0

-- `lock`, its result into `d`.
abbrev pub lock : ℕ → ℕ → Heap → Heap
lock d w h = if expired (h.weak w) h then h else put d (h.weak w) (retain (h.weak w) h)

-- `load` and `store` of the weak wrapper, which treat the std::weak_ptr as a std::shared_ptr.

abbrev pub weak_load : ℕ → ℕ → Heap → Heap
weak_load d w h = release (h.weak w) (put_weak d (h.weak w) (retain (h.weak w) h))

abbrev pub weak_store : ℕ → ℕ → Heap → Heap
weak_store w v h = release (h.weak w) (put_weak w (h.weak v) (retain (h.weak v) h))

-- Its `swap`, `exchange` with the result in `d`, and `cas_weak` and `cas_strong`, likewise. The end of
-- a parameter that is a weak wrapper changes no count.
abbrev pub weak_swap : ℕ → ℕ → Heap → Heap
weak_swap w v h =
    let h1 = put_weak v (h.weak w) (retain (h.weak w) h) in
    release (h1.weak w) (put_weak w (h.weak v) h1)

abbrev pub weak_exchange : ℕ → ℕ → ℕ → Heap → Heap
weak_exchange d w v h =
    release (h.weak w) (put_weak d (h.weak w) (put_weak w (h.weak v) (retain (h.weak v) h)))

abbrev pub weak_cas : Bool → ℕ → ℕ → ℕ → Heap → Bool × Heap
weak_cas spurious w expected desired h =
    let p = h.weak desired in
    let h1 = retain p h in
    if not spurious && same (h.weak w) (h.weak expected)
    then (true, release (h.weak w) (put_weak w p h1))
    else (
      false,
      release p (release (h.weak expected) (put_weak expected (h.weak w) (retain (h.weak w) h1))),
    )
