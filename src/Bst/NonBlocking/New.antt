-- ===== src/Bst/NonBlocking/New.antt =====
-- BST/NonBlockingBST.cpp: which calls return true.
use zwq_repos.Prelude.{ℕ, ◌≡◌, ◌≢◌, ◌⊎◌, inl, inr, refl, sym, subst, ap, ◌∙◌, true, arith}
use zwq_repos.Bst.NonBlocking.{Heap, outside, returned, System, Step, Reach}
use zwq_repos.Bst.NonBlocking.Route.{Contains}
use zwq_repos.Bst.NonBlocking.Invariant.{History, unknown, finished, IsThread, IsSound}
use zwq_repos.Bst.NonBlocking.Reached.{IsSound-Step, Reach-IsSound}

-- From one system to another by any number of steps.
pub data Runs (s : System) : System → Type 0 where
  stop : Runs s s
  further : {t u : System} → Runs s t → Step t u → Runs s u

-- What the history after many steps has kept of the first one.
record Since (g : History) (h : Heap) (g' : History) (h' : Heap) : Type 0 where
  known : (o : ℕ) → g.stage o ≢ unknown → g'.stage o ≢ unknown
  caller : (o : ℕ) → g.stage o ≢ unknown → g'.caller o ≡ g.caller o
  present : (k : ℕ) → Contains h k → Contains h' k
  ended : (o : ℕ) → g'.stage o ≡ finished → (g.stage o ≢ unknown) ⊎ (¬ Contains h (g'.op_key o))

Since-Runs :
    (g : History) {s t : System}
    → IsSound g s
    → Runs s t
    → (g' : History) × IsSound g' t × Since g s.heap g' t.heap
Since-Runs g sound stop = (
  g,
  sound,
  record {
    known = λ o kn. kn;
    caller = λ o kn. refl;
    present = λ k c. c;
    ended = λ o e. inl (ground arith);
  },
)
Since-Runs g sound (further r x) =
    let (g1, sound1, since) = Since-Runs g sound r in
    let (g2, sound2, (grows, changes)) = IsSound-Step g1 sound1 x in
    (
      g2,
      sound2,
      record {
        known = λ o kn. grows.known o (since.known o kn);
        caller = λ o kn. grows.caller o (since.known o kn) ∙ since.caller o kn;
        present = λ k c. changes.present k (since.present k c);
        ended = λ o e. elim (grows.ended o e) [
          | inr new ↦ inr (λ c. new (since.present _ c))
          | inl was ↦ elim (since.ended o was) [
            | inl kn ↦ inl kn
            | inr out ↦ inr (λ c. out (subst (Contains _) (grows.op_key o (λ u. ground arith)) c))
          ]
        ];
      },
    )

-- From a reachable system in which a thread has not called `insert`, to one in which its call has
-- returned true: the key of the call was not in the tree of the first and is in that of the second.
pub insert-adds :
    {s t : System} (i k x : ℕ)
    → Reach s
    → s.threads i ≡ outside
    → Runs s t
    → t.threads i ≡ returned k true x
    → (¬ Contains s.heap k) × Contains t.heap k
insert-adds {s} {t} i k x r before runs after =
    let (g, sound) = Reach-IsSound r in
    let (g', sound', since) = Since-Runs g sound runs in
    let (done, called, key) : IsThread g' t.heap i (returned k true x) =
      subst (IsThread g' t.heap i) after (sound'.threads i) in
    (
      elim (since.ended x done) [
        | inr out ↦ λ c. out (subst (Contains s.heap) (sym key) c)
        | inl kn ↦
            let mine : g.caller x ≡ i = sym (since.caller x kn) ∙ called in
            absurd (sound.begun x kn (ap s.threads mine ∙ before))
      ],
      subst (Contains t.heap) key (sound'.heap.ends x done).present,
    )
