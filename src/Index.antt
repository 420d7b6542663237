-- ===== src/Index.antt =====
-- The inverted index: src/include/HashVector_Enhanced.h and src/include/common_index.h, at the node
-- types of src/index/inv_index/doc_index.h.
pub mod Types
pub mod HashVector
pub mod CommonIndex
pub mod Make
