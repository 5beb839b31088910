-- ===== src/Coroutine.antt =====
-- src/coroutine: the stack of a coroutine, and the context that it starts with.
pub mod Stack
pub mod Context
mod Tests
