-- ===== src/Coroutine/Context.antt =====
-- src/coroutine/context.cpp: the words that a coroutine starts with, at the end of its stack.
use rock_coro.Prelude.{
  ℕ, ◌+◌, ◌-◌, ◌*◌, ◌^◌, ◌≤◌, ◌≡◌, refl, ap, ◌∙◌, false, some, ◌==◌, if◌then◌else◌, arith,
}
use rock_coro.Coroutine.Stack.{System, within, Memory, Stack, stack_size, new}
use rock_coro.Coroutine.Stack.Rounding.{stack_has_whole_pages}
use rock_coro.Coroutine.Stack.Guard.{IsPosix, stack_is_guarded}

pub record CoroutineContext : Type 0 where
  pub rsp : ℕ
  pub rbp : ℕ

-- A store of a word of eight bytes at `a`.
abbrev pub store : ℕ → ℕ → Memory → Memory
store a v m = record m { words = λ b. if b == a then v else m.words b }

-- `entry` is the address of coroutine_entry_function, `coroutine` and `args` are those of the coroutine.
pub init : ℕ → ℕ → ℕ → Stack → Memory → CoroutineContext × Memory
init entry coroutine args s m =
    let sp = s.stack_mem + s.size - 8 * 3 in
    (
      record { rsp = sp; rbp = sp },
      store (sp + 8 * 2) args (store (sp + 8) coroutine (store sp entry m)),
    )

-- What `init` leaves on a stack with room for it.
pub record Initial (entry coroutine args : ℕ) (s : Stack) (m : Memory)
    (result : CoroutineContext × Memory) : Type 0 where
  pub frame_pointer : (result.0).rbp ≡ (result.0).rsp
  pub stack_end : (result.0).rsp + 24 ≡ s.stack_mem + s.size
  pub on_stack : s.stack_mem ≤ (result.0).rsp
  pub return_address : (result.1).words (result.0).rsp ≡ entry
  pub first_param : (result.1).words ((result.0).rsp + 8) ≡ coroutine
  pub second_param : (result.1).words ((result.0).rsp + 16) ≡ args

pub init_lem :
    (entry coroutine args : ℕ) (s : Stack) (m : Memory)
    → 24 ≤ s.size
    → Initial entry coroutine args s m (init entry coroutine args s m)
unfolding init
init_lem entry coroutine args s m room =
    let sp = s.stack_mem + s.size - 8 * 3 in
    record {
      frame_pointer = refl;
      stack_end = omega arith;
      on_stack = omega arith;
      return_address = ground arith;
      first_param = ground arith;
      second_param = ground arith;
    }

init-outside :
    (entry coroutine args : ℕ) (s : Stack) (m : Memory) (a : ℕ)
    → 24 ≤ s.size
    → within s.stack_mem s.size a ≡ false
    → (init entry coroutine args s m).1.words a ≡ m.words a
unfolding init
init-outside entry coroutine args s m a room out =
    let sp = s.stack_mem + s.size - 24 in
    let first : (a == sp) ≡ false = ground arith in
    let second : (a == (sp + 8)) ≡ false = ground arith in
    let third : (a == (sp + 16)) ≡ false = ground arith in rw (third, second, first) refl

-- With mmap, mprotect and munmap as documented, pages of 2 ^ k bytes, for k up to 32, and a stack
-- from an mmap that succeeds: init leaves the return address, the coroutine and its argument as
-- three words that end where the stack ends and start on it, at the stack pointer, which is also
-- the frame pointer; the word at an address outside the stack stays as it is.
pub init_stays_on_stack :
    (sys : System) (k base entry coroutine args : ℕ) (m m1 : Memory) (a : ℕ)
    → IsPosix sys
    → sys.page_size ≡ 2 ^ k
    → k ≤ 32
    → sys.mmap (sys.page_size + stack_size sys.page_size) m ≡ some (base, m1)
    → within (base + sys.page_size) (stack_size sys.page_size) a ≡ false
    → (s : Stack) × (m' : Memory) × (new sys m ≡ some (s, m'))
      × Initial entry coroutine args s m' (init entry coroutine args s m')
      × ((init entry coroutine args s m').1.words a ≡ m'.words a)
init_stays_on_stack sys k base entry coroutine args m m1 a posix page small success outside =
    let m' = (sys.mprotect base sys.page_size m1).1 in
    let (s, made, start, length_eq, writable, mapped) =
      stack_is_guarded sys posix k page small m m1 base success a in
    let (pages, whole, least, most) = stack_has_whole_pages k small in
    let room : 24 ≤ s.size = omega (arith, length_eq, ap stack_size page, least) in
    (
      s,
      m',
      made,
      init_lem entry coroutine args s m' room,
      init-outside entry coroutine args s m' a room (
          ap (λ b. within b s.size a) start
          ∙ ap (λ n. within (base + sys.page_size) n a) length_eq
          ∙ outside),
    )
