-- ===== src/Coroutine/Stack/Guard.antt =====
-- The page below a stack, and what the destructor takes back, also if mprotect or munmap fail.
use rock_coro.Prelude.{
  ℕ, suc, ◌+◌, ◌-◌, ◌*◌, ◌^◌, ◌≤◌, ◌≡◌, refl, ap, sym, ◌∙◌, Bool, true, false, not, ◌&&◌, some,
  subst, if◌then◌else◌, arith, Bool-cases, inl, inr,
}
use rock_coro.Coroutine.Stack.{guarded, System, within, Memory, Stack, stack_size, new, destroy}
use rock_coro.Coroutine.Stack.Rounding.{stack_has_whole_pages}

within-whole :
    (base page size a : ℕ) (before : Bool)
    → (if within base (page + size) a then true else before)
      ≡ (if within base page a then true else if within (base + page) size a then true else before)
within-whole base page size a before = ground arith

-- The documented behaviour of the system, on whole pages. A call of mprotect or munmap that fails may
-- have done a part of its work, but does not touch what is outside its range.
pub record IsPosix (sys : System) : Type 0 where
  pub mmap_was_free :
      (pages base a : ℕ) (m m' : Memory)
      → sys.mmap (pages * sys.page_size) m ≡ some (base, m')
      → within base (pages * sys.page_size) a ≡ true
      → m.mapped a ≡ false
  pub mmap_maps :
      (pages base a : ℕ) (m m' : Memory)
      → sys.mmap (pages * sys.page_size) m ≡ some (base, m')
      → (m'.mapped a ≡ (if within base (pages * sys.page_size) a then true else m.mapped a))
        × (m'.writable a ≡ (if within base (pages * sys.page_size) a then true else m.writable a))
  pub mprotect_maps :
      (base size a : ℕ) (m : Memory) → (sys.mprotect base size m).1.mapped a ≡ m.mapped a
  pub mprotect_range :
      (base pages a : ℕ) (m : Memory)
      → within base (pages * sys.page_size) a ≡ false
      → (sys.mprotect base (pages * sys.page_size) m).1.writable a ≡ m.writable a
  pub mprotect_protects :
      (base size a : ℕ) (m : Memory)
      → (sys.mprotect base size m).0 ≡ true
      → within base size a ≡ true
      → (sys.mprotect base size m).1.writable a ≡ false
  pub munmap_range :
      (base pages a : ℕ) (m : Memory)
      → within base (pages * sys.page_size) a ≡ false
      → (sys.munmap base (pages * sys.page_size) m).1.mapped a ≡ m.mapped a
  pub munmap_unmaps :
      (base size a : ℕ) (m : Memory)
      → (sys.munmap base size m).0 ≡ true
      → within base size a ≡ true
      → (sys.munmap base size m).1.mapped a ≡ false

module _ (sys : System) (posix : IsPosix sys) (k : ℕ) (page : sys.page_size ≡ 2 ^ k)
    (small : k ≤ 32) where
  total_pages : (pages : ℕ) × (pages * sys.page_size ≡ sys.page_size + stack_size sys.page_size)
  total_pages =
      let (pages, whole, least, most) = stack_has_whole_pages k small in
      (suc pages, rw page (grind (arith, whole)))

  module _ (m m1 : Memory) (base : ℕ)
      (success : sys.mmap (sys.page_size + stack_size sys.page_size) m ≡ some (base, m1))
      (a : ℕ) where
    was_free : within base (sys.page_size + stack_size sys.page_size) a ≡ true → m.mapped a ≡ false
    was_free =
        subst (λ n. sys.mmap n m ≡ some (base, m1) → within base n a ≡ true → m.mapped a ≡ false)
          total_pages.1 (posix.mmap_was_free total_pages.0 base a m m1) success

    maps :
        let whole = within base (sys.page_size + stack_size sys.page_size) a in
        (m1.mapped a ≡ (if whole then true else m.mapped a))
        × (m1.writable a ≡ (if whole then true else m.writable a))
    maps =
        subst
          (λ n.
            sys.mmap n m ≡ some (base, m1)
            → (m1.mapped a ≡ (if within base n a then true else m.mapped a))
              × (m1.writable a ≡ (if within base n a then true else m.writable a)))
          total_pages.1 (posix.mmap_maps total_pages.0 base a m m1) success

    protect_range :
        within base sys.page_size a ≡ false
        → (sys.mprotect base sys.page_size m1).1.writable a ≡ m1.writable a
    protect_range =
        subst (λ n. within base n a ≡ false → (sys.mprotect base n m1).1.writable a ≡ m1.writable a)
          {x = 1 * sys.page_size} {y = sys.page_size} (omega arith)
          (posix.mprotect_range base 1 a m1)

    unmap_range :
        (n : Memory)
        → let total = sys.page_size + stack_size sys.page_size in
          within base total a ≡ false → (sys.munmap base total n).1.mapped a ≡ n.mapped a
    unmap_range n =
        subst (λ t. within base t a ≡ false → (sys.munmap base t n).1.mapped a ≡ n.mapped a)
          total_pages.1 (posix.munmap_range base total_pages.0 a n)

    -- With mmap, mprotect and munmap as documented, pages of 2 ^ k bytes, for k up to 32, and an mmap
    -- that succeeds: whether or not mprotect succeeds, the constructor makes a stack of the rounded
    -- size just above one page at the address from mmap. The page and the stack are mapped, the
    -- stack can be written, and any other address is as before. The page can not be written if
    -- mprotect succeeds, and is what mprotect leaves there if it fails.
    pub stack_is_guarded :
        let (protected, m2) = sys.mprotect base sys.page_size m1 in
        (s : Stack) × (new sys m ≡ some (s, m2))
        × (s.stack_mem ≡ base + sys.page_size)
        × (s.size ≡ stack_size sys.page_size)
        × (m2.writable a ≡ (
            if within base sys.page_size a
            then not protected && m2.writable a
            else if within s.stack_mem s.size a
            then true
            else m.writable a))
        × (m2.mapped a ≡ (
            if within base sys.page_size a
            then true
            else if within s.stack_mem s.size a
            then true
            else m.mapped a))
    unfolding new
    stack_is_guarded =
        let page = sys.page_size in
        let size = stack_size page in
        let (protected, m2) = sys.mprotect base page m1 in
        (
          record { stack_mem = base + page; size = size },
          ap (guarded sys size) success,
          refl,
          refl,
          elim (Bool-cases (within base page a)) [
            | inl e ↦ elim (Bool-cases protected) [
              | inl ok ↦ posix.mprotect_protects base page a m1 ok e ∙ sym (rw (e, ok) refl)
              | inr failed ↦ sym (rw (e, failed) refl)
            ]
            | inr e ↦
                protect_range e ∙ maps.1 ∙ within-whole base page size a (m.writable a) ∙ rw e refl
          ],
          posix.mprotect_maps base page a m1 ∙ maps.0 ∙ within-whole base page size a (m.mapped a),
        )

    -- With mmap, mprotect and munmap as documented, pages of 2 ^ k bytes, for k up to 32, and an mmap
    -- that succeeds: whether or not mprotect succeeds, the destructor right after the constructor
    -- leaves each address mapped or not mapped as it was before both, if munmap succeeds. If munmap
    -- fails, that holds for the addresses outside the page and the stack.
    pub destroy_unmaps_stack :
        let (protected, m2) = sys.mprotect base sys.page_size m1 in
        let total = sys.page_size + stack_size sys.page_size in
        let (unmapped, m3) = sys.munmap base total m2 in
        (s : Stack) × (new sys m ≡ some (s, m2))
        × (destroy sys s m2 ≡ m3)
        × (m3.mapped a ≡ (if within base total a && not unmapped then m3.mapped a else m.mapped a))
    unfolding new destroy
    destroy_unmaps_stack =
        let page = sys.page_size in
        let total = page + stack_size page in
        let m2 = (sys.mprotect base page m1).1 in
        let (unmapped, m3) = sys.munmap base total m2 in
        let start : base + page - page ≡ base = omega arith in
        (
          record { stack_mem = base + page; size = stack_size page },
          ap (guarded sys (stack_size page)) success,
          ap (λ b. (sys.munmap b total m2).1) start,
          elim (Bool-cases (within base total a)) [
            | inl e ↦ elim (Bool-cases unmapped) [
              | inl ok ↦
                  posix.munmap_unmaps base total a m2 ok e
                  ∙ sym (was_free e)
                  ∙ sym (rw (e, ok) refl)
              | inr failed ↦ sym (rw (e, failed) refl)
            ]
            | inr e ↦ unmap_range m2 e ∙ posix.mprotect_maps base page a m1 ∙ maps.0 ∙ rw e refl
          ],
        )
