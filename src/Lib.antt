-- ===== src/Lib.antt =====
-- Verification library of zwq_repos: lock-free building blocks, search trees and wrappers in C++.
--
-- Parts, and the files that model them:
--
-- * detail-dev/tagged_ptr_ptrcompression.hpp is TaggedPtr, detail-dev/tagged_ptr_dcas.hpp is
--   TaggedPtrDcas and detail-dev/tagged_ptr_pair.hpp is TaggedPtrPair. A pointer or a word is a
--   number; a bit field is a quotient and a remainder by powers of two. detail-dev/tagged_ptr.hpp
--   chooses one of the first two by the machine, so TaggedPtrDcas.Laws relates them.
-- * detail-dev/freelist.hpp, tagged_index, fixed_size_freelist and its storages, is FixedFreelist.
--   The state is the pool, the bytes of the nodes and their number. A node pointer is its index. The
--   functions keep their names; `_unsafe` are those for one thread. A compare-and-swap loop is a
--   recursion on the list of what the other threads do in each round (Interference), with `none`
--   when the list ends first; Loops shows that one round without interference ends it.
-- * detail-dev/freelist.hpp, cache_freelist, is CacheFreelist. It runs on one thread, so that a weak
--   exchange fails only for no reason, which it does a given number of times. The allocator is a
--   parameter that gives out fresh storage; one that throws is left out. The destructor's loop takes
--   the number of rounds that it may run; one more than the nodes of the stack suffice.
-- * detail-dev/deque.hpp is Deque and Deque.Calls. Nodes stand under numbers; a sound state is a
--   list of nodes with both links in place, or one in which a push has moved the anchor and the link
--   back to its node may be missing (Deque.State). Each call runs alone from such a state; its loop
--   takes a number of rounds, of which two suffice. The pool is a parameter.
-- * BST/BSTclass.h, BST/BSTclass.cpp and BST/SequentialBST.cpp are Bst.Tree, BST/STMbst.cpp is
--   Bst.Tree.Stm. The tree is a value, a pointer into it a path. An `int` is its distance from
--   INT_MIN.
-- * BST/NonBlockingBST.cpp, with the classes of BST/BSTclass.h, is Bst.NonBlocking: a heap of nodes and
--   operations at addresses, and a step relation of threads that each call `insert` once. A step has
--   at most one access to a field that others change. The proofs keep, beside the heap, the range of
--   keys of each node of the tree and the stage of each operation (Invariant); each kind of step has
--   a module; Results, New and Solo have what follows for every reachable system.
-- * utility/bstree.hpp is Bstree. Objects behind shared pointers stand on a heap under numbers, and
--   exchanges compare these numbers. The key type is a type of natural numbers. `lookup` takes the
--   number of rounds that it may run and gives `none` when these do not suffice; the theorems on
--   `insert` speak of a search that has ended.
-- * utility/aspect_abstract.hpp and utility/aspect_entity.hpp are Aspects. Effects are functions on
--   a type of worlds, and a missing member function is `none`.
-- * utility/hashmap_unique.hpp and utility/hashmap_multiple.hpp are HashMap. The table of liburcu is
--   a parameter with the laws that its documentation gives (HashMap.Table); HashMap.Chain is a list
--   of nodes that has them. `remove` takes what other threads do before its deletion; `for_each` the
--   number of rounds that it may run, of which one more than the nodes suffices, as for a loop over
--   the iterators.
-- * utility/IoCcontainer.hpp is IocContainer, over HashMap.
-- * utility/thread_pool.hpp and utility/thread_pool_block.hpp are ThreadPool, a step relation of the
--   workers and of the pool's owner. The queue, which another library implements, gives out its tasks
--   in any order.
-- * math/Matrix.hpp is Matrix. The element type and its arithmetic are parameters; the loops are
--   recursions on the number of rounds, and an access outside of the nested arrays is `none`.
-- * utility/smart_ptr_wrapper.hpp is SharedPtrWrapper. The wrappers stand at addresses, the objects
--   have a use count and the number of times that they were destroyed; Steps has every sequence of
--   operations. An atomic operation is one step.
-- * utility.hpp, __power2, is Power2; a shift of an `int` that C++ leaves undefined is `none`.
--
-- Each Examples module holds runs and the theorems at concrete inputs. Prelude holds what the files
-- share.
--
-- Not modelled: multi_index/, chainbase/, the queues of utility/ and the policies of detail-dev/ are
-- copies of other projects' libraries; drivers and test programs do input and output. Memory orders
-- are read as sequential consistency. The interleavings inside `helpinsert` of utility/bstree.hpp,
-- two calls of the deque at once, BST/bstclass.cpp and detail-dev/sp_w_freelist.hpp have no model.
mod Prelude
pub mod TaggedPtr
pub mod TaggedPtrPair
pub mod TaggedPtrDcas
pub mod FixedFreelist
pub mod CacheFreelist
pub mod Deque
pub mod Bst
pub mod Bstree
pub mod Aspects
pub mod Power2
pub mod Matrix
pub mod SharedPtrWrapper
pub mod ThreadPool
pub mod HashMap
pub mod IocContainer
