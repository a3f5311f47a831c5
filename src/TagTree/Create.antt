-- ===== src/TagTree/Create.antt =====
-- `tag_tree_node_create` and `tag_tree_insert` of src/tagtree.c on a sound tree.
pub mod Drop
pub mod Fresh
pub mod Insert
pub mod Refused
