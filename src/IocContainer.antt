-- ===== src/IocContainer.antt =====
-- utility/IoCcontainer.hpp: a container of creators over the map of utility/hashmap_unique.hpp. A name
-- is a number. A creator in a `std::any` is its function with a number for its `std::function` type;
-- its arguments are of a type `A`, what it makes of a type `O`.
pub mod First
mod Examples
use zwq_repos.Prelude.{ℕ, Bool, true, false, Option, none, some, List, [], ◌∷◌, ◌==◌, if◌then◌else◌}
use zwq_repos.HashMap.{Lfht, HashMap, find, insert}

pub record Creator (A O : Type 0) : Type 0 where
  pub func_type : ℕ
  pub func : A → O

-- What `resolve` does: it returns a null pointer, `std::any_cast` throws, or it returns an object.
pub data Resolved (O : Type 0) : Type 0 where
  null bad_any_cast : Resolved O
  made : O → Resolved O

module _ {A O : Type 0} where
  -- `regeditType<Type, Args...>`, `regeditRel<Type, Dep, Args...>` where `Dep` derives from `Type`,
  -- and the same where it does not, so that `Type` is made from a `Dep`.
  abbrev pub type_creator : ℕ → (A → O) → Creator A O
  type_creator func_type make_type = record { func_type = func_type; func = make_type }

  abbrev pub derived_creator : {D : Type 0} → ℕ → (A → D) → (D → O) → Creator A O
  derived_creator func_type make_dep upcast = record {
    func_type = func_type;
    func = λ args. upcast (make_dep args);
  }

  abbrev pub wrapped_creator : {D : Type 0} → ℕ → (A → D) → (D → O) → Creator A O
  wrapped_creator func_type make_dep make_type = record {
    func_type = func_type;
    func = λ args. make_type (make_dep args);
  }

  -- `std::any_cast` to the type of the call, and the call.
  abbrev pub call_as : ℕ → A → Creator A O → Resolved O
  call_as func_type args c = if c.func_type == func_type then made (c.func args) else bad_any_cast

module _ {H A O : Type 0} (m : Lfht H) (hash : ℕ → ℕ) where
  -- `registerCreator`
  unfoldable pub register_creator :
      ℕ → Creator A O → HashMap H (Creator A O) → Bool × HashMap H (Creator A O)
  unfolding find insert
  register_creator key c s =
      if find m hash key s == 0 then (true, insert m hash (key, c) s) else (false, s)

  -- `regeditType` and `regeditRel` drop what `registerCreator` returns.
  unfoldable pub regedit : ℕ → Creator A O → HashMap H (Creator A O) → HashMap H (Creator A O)
  unfolding register_creator
  regedit key c s = (register_creator key c s).1

  unfoldable pub resolve : ℕ → ℕ → A → HashMap H (Creator A O) → Resolved O
  unfolding find
  resolve key func_type args s =
      let iter = find m hash key s in
      if iter == 0
      then null
      else elim (s.items iter) [ none ↦ null | some kv ↦ call_as func_type args kv.1 ]

  abbrev pub regedits : List (ℕ × Creator A O) → HashMap H (Creator A O) → HashMap H (Creator A O)
  regedits [] s = s
  regedits ((key, c) ∷ rest) s = regedits rest (regedit key c s)
