-- ===== src/Coroutine/Tests.antt =====
-- A system with pages of 4096 bytes that maps at one address, if the place is free.
use rock_coro.Prelude.{
  ◌==◌, ℕ, zero, suc, ◌+◌, ◌*◌, ◌%◌, ◌^◌, ◌≤◌, ◌<◌, ◌≡◌, refl, ap, sym, ◌∙◌, Bool, true, false, not,
  ◌&&◌, Option, none, some, if◌then◌else◌, arith, Bool-cases, inl, inr,
}
use rock_coro.Coroutine.Stack.{
  default_size, System, within, Memory, Stack, stack_size, new, destroy,
}
use rock_coro.Coroutine.Stack.Rounding.{stack_has_whole_pages}
use rock_coro.Coroutine.Stack.Guard.{IsPosix, stack_is_guarded, destroy_unmaps_stack}
use rock_coro.Coroutine.Context.{Initial, init, init_stays_on_stack}

abbrev unmapped : Memory
unmapped = record { mapped = λ a. false; writable = λ a. false; words = λ a. 0 }

all_free : ℕ → ℕ → Memory → Bool
all_free zero base m = true
all_free (suc size) base m = let rest = all_free size (base + 1) m in not (m.mapped base) && rest

abbrev map_at : ℕ → ℕ → Memory → Memory
map_at base size m = record m {
  mapped = λ a. if within base size a then true else m.mapped a;
  writable = λ a. if within base size a then true else m.writable a;
}

abbrev start : ℕ
start = 65536

-- A call on pages that do not begin at a page fails, as does each mprotect if `refuses`.
abbrev aligned : ℕ → Bool
aligned base = base % 4096 == 0

abbrev one_place : Bool → System
one_place refuses = record {
  page_size = 4096;
  mmap = λ size m. if all_free size start m then some (start, map_at start size m) else none;
  mprotect = λ base size m. (
    not refuses && aligned base,
    record m {
      writable =
          λ a. if not refuses && aligned base && within base size a then false else m.writable a;
    },
  );
  munmap = λ base size m. (
    aligned base,
    record m {
      mapped = λ a. if aligned base && within base size a then false else m.mapped a;
      writable = λ a. if aligned base && within base size a then false else m.writable a;
    },
  );
}

and_both : (a b : Bool) → (a && b) ≡ true → (a ≡ true) × (b ≡ true)
and_both true b e = (refl, e)
and_both false b e = cc

free_within :
    (size base a : ℕ) (m : Memory)
    → all_free size base m ≡ true
    → within base size a ≡ true
    → m.mapped a ≡ false
unfolding all_free
free_within zero base a m free inside = ground arith
free_within (suc size) base a m free inside =
    let (here, rest) = and_both (not (m.mapped base)) (all_free size (base + 1) m) free in
    elim (Bool-cases (a == base)) [
      | inl e ↦
          let same : base ≡ a = ground arith in
          ap m.mapped (sym same)
          ∙ elim (Bool-cases (m.mapped base)) [ inl f ↦ absurd (cc (rw f at here)) | inr f ↦ f ]
      | inr e ↦ free_within size (base + 1) a m rest (ground arith)
    ]

all_of_unmapped : (size base : ℕ) → all_free size base unmapped ≡ true
unfolding all_free
all_of_unmapped zero base = refl
all_of_unmapped (suc size) base = all_of_unmapped size (base + 1)

abbrev base_of : Option (ℕ × Memory) → ℕ
base_of none = 0
base_of (some (base, m)) = base

abbrev memory_of : Option (ℕ × Memory) → Memory
memory_of none = unmapped
memory_of (some (base, m)) = m

one_place-IsPosix : (refuses : Bool) → IsPosix (one_place refuses)
one_place-IsPosix refuses = record {
  mmap_was_free = λ pages base a m m' e inside.
      let size = pages * 4096 in
      elim (Bool-cases (all_free size start m)) [
        | inl f ↦
            let at_start : base ≡ start = sym (ap base_of (rw f at e)) in
            free_within size start a m f (ap (λ b. within b size a) (sym at_start) ∙ inside)
        | inr f ↦ absurd (cc (rw f at e))
      ];
  mmap_maps = λ pages base a m m' e.
      let size = pages * 4096 in
      elim (Bool-cases (all_free size start m)) [
        | inl f ↦
            let at_start : start ≡ base = ap base_of (rw f at e) in
            let result : map_at start size m ≡ m' = ap memory_of (rw f at e) in
            (
              ap (λ (n : Memory). n.mapped a) (sym result)
                  ∙ ap (λ b. if within b size a then true else m.mapped a) at_start,
              ap (λ (n : Memory). n.writable a) (sym result)
                  ∙ ap (λ b. if within b size a then true else m.writable a) at_start,
            )
        | inr f ↦ absurd (cc (rw f at e))
      ];
  mprotect_maps = λ base size a m. refl;
  mprotect_range = λ base pages a m out. ground (arith, out);
  mprotect_protects = λ base size a m done inside. ground (arith, done, inside);
  munmap_range = λ base pages a m out. ground (arith, out);
  munmap_unmaps = λ base size a m done inside. ground (arith, done, inside);
}

abbrev mapped_once : Memory
mapped_once = map_at start (4096 + stack_size 4096) unmapped

mapped_at_start :
    (refuses : Bool)
    → (one_place refuses).mmap (4096 + stack_size 4096) unmapped ≡ some (start, mapped_once)
mapped_at_start refuses = rw (all_of_unmapped (4096 + stack_size 4096) start) refl

stack_has_whole_pages_example :
    (pages : ℕ) × (stack_size (2 ^ 12) ≡ pages * 2 ^ 12)
    × (default_size ≤ stack_size (2 ^ 12))
    × (stack_size (2 ^ 12) < default_size + 2 ^ 12)
stack_has_whole_pages_example = stack_has_whole_pages 12 (omega arith)

stack_is_guarded_example :
    let (protected, m2) = (one_place false).mprotect start 4096 mapped_once in
    (s : Stack) × (new (one_place false) unmapped ≡ some (s, m2))
    × (s.stack_mem ≡ start + 4096)
    × (s.size ≡ stack_size 4096)
    × (m2.writable 65540 ≡ (
        if within start 4096 65540
        then not protected && m2.writable 65540
        else if within s.stack_mem s.size 65540
        then true
        else unmapped.writable 65540))
    × (m2.mapped 65540 ≡ (
        if within start 4096 65540
        then true
        else if within s.stack_mem s.size 65540
        then true
        else unmapped.mapped 65540))
stack_is_guarded_example =
    stack_is_guarded (one_place false) (one_place-IsPosix false) 12 refl (omega arith) unmapped
      mapped_once start (mapped_at_start false) 65540

-- The page below the stack of a system that refuses to protect it.
unguarded : ((one_place true).mprotect start 4096 mapped_once).1.writable 65540 ≡ true
unfolding stack_size
unguarded = refl

destroy_unmaps_stack_example :
    let (protected, m2) = (one_place true).mprotect start 4096 mapped_once in
    let total = 4096 + stack_size 4096 in
    let (unmapped_all, m3) = (one_place true).munmap start total m2 in
    (s : Stack) × (new (one_place true) unmapped ≡ some (s, m2))
    × (destroy (one_place true) s m2 ≡ m3)
    × (m3.mapped 70000 ≡ (
        if within start total 70000 && not unmapped_all
        then m3.mapped 70000
        else unmapped.mapped 70000))
destroy_unmaps_stack_example =
    destroy_unmaps_stack (one_place true) (one_place-IsPosix true) 12 refl (omega arith) unmapped
      mapped_once start (mapped_at_start true) 70000

below : within (start + 4096) (stack_size 4096) 65540 ≡ false
unfolding stack_size
below = refl

init_stays_on_stack_example :
    (s : Stack) × (m' : Memory) × (new (one_place false) unmapped ≡ some (s, m'))
    × Initial 11 22 33 s m' (init 11 22 33 s m')
    × ((init 11 22 33 s m').1.words 65540 ≡ m'.words 65540)
init_stays_on_stack_example =
    init_stays_on_stack (one_place false) 12 start 11 22 33 unmapped mapped_once 65540
      (one_place-IsPosix false) refl (omega arith) (mapped_at_start false) below
