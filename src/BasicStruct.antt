-- ===== src/BasicStruct.antt =====
-- src/basic_struct: the containers.
pub mod Memory
pub mod Buffer
pub mod Sequence
pub mod Array
pub mod Vector
pub mod Deque
pub mod Queue
pub mod ObjectPool
pub mod MinHeap
pub mod LinkedList
pub mod ChunkedVector
mod Tests
