-- ===== src/Bst.antt =====
-- The folder BST: leaf-oriented search trees.
pub mod Tree
pub mod NonBlocking
