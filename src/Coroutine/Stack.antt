-- ===== src/Coroutine/Stack.antt =====
-- src/coroutine/stack.cpp: a stack above a guard page. The calls of the system are a parameter.
pub mod Rounding
pub mod Guard
use rock_coro.Prelude.{
  ℕ, ◌+◌, ◌-◌, ◌*◌, Bool, true, false, not, ◌&&◌, Option, none, some, ltb, if◌then◌else◌,
}
use rock_coro.TaggedPtr.{bit_not}
use Prim.Native.Nat.{bit_and}

-- STACK_SIZE
abbrev pub default_size : ℕ
default_size = 1024 * 1024

-- The address space: what is mapped, what may be read and written, and the words.
pub record Memory : Type 0 where
  pub mapped : ℕ → Bool
  pub writable : ℕ → Bool
  pub words : ℕ → ℕ

-- `a` is one of the `size` addresses from `base` on.
abbrev pub within : ℕ → ℕ → ℕ → Bool
within base size a = not (ltb a base) && ltb a (base + size)

-- The system: sysconf(_SC_PAGESIZE), mmap of anonymous memory to read and write, with `none` for
-- MAP_FAILED, mprotect with PROT_NONE, and munmap. The last two tell whether they succeed, and what
-- memory is like after them, also if they fail.
pub record System : Type 0 where
  pub page_size : ℕ
  pub mmap : ℕ → Memory → Option (ℕ × Memory)
  pub mprotect : ℕ → ℕ → Memory → Bool × Memory
  pub munmap : ℕ → ℕ → Memory → Bool × Memory

pub record Stack : Type 0 where
  pub stack_mem : ℕ
  pub size : ℕ

unfoldable pub stack_size : ℕ → ℕ
stack_size page_size = bit_and (default_size + page_size - 1) (bit_not (page_size - 1))

-- What mprotect returns is not looked at.
abbrev pub guarded : System → ℕ → Option (ℕ × Memory) → Option (Stack × Memory)
guarded sys size none = none
guarded sys size (some (base, m)) = some (
  record { stack_mem = base + sys.page_size; size = size },
  (sys.mprotect base sys.page_size m).1,
)

-- `none` is the throw.
pub new : System → Memory → Option (Stack × Memory)
unfolding stack_size
new sys m =
    let size = stack_size sys.page_size in
    let total_size = sys.page_size + size in guarded sys size (sys.mmap total_size m)

-- What munmap returns is not looked at either.
pub destroy : System → Stack → Memory → Memory
destroy sys s m = (sys.munmap (s.stack_mem - sys.page_size) (sys.page_size + s.size) m).1
