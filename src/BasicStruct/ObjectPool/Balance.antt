-- ===== src/BasicStruct/ObjectPool/Balance.antt =====
-- Each object of the pool is free or live, and just once.
use rock_coro.Prelude.{
  ℕ, zero, suc, ◌+◌, ◌-◌, ◌/◌, ◌≤◌, ◌<◌, ◌≡◌, refl, ap, ◌∙◌, some, List, [], ◌∷◌, ◌++◌, arith, ltb,
  ◌==◌, ◌&&◌, if◌then◌else◌, length, length-append, ==_refl,
}
use rock_coro.BasicStruct.ObjectPool.{
  Object, ObjectPool, push_objects, grow, make_blocks, new, take_back, taken, grown_if_empty,
  acquire, release,
}

abbrev pub same : Object → Object → ℕ
same a x = if (a.block == x.block) && (a.index == x.index) then 1 else 0

abbrev pub count : Object → List Object → ℕ
count a [] = 0
count a (x ∷ xs) = same a x + count a xs

-- 1 for an object of the first `n` blocks.
abbrev pub exists_in : ℕ → ℕ → Object → ℕ
exists_in K n a = if ltb a.block n && ltb a.index K then 1 else 0

-- `live` counts the live objects.
abbrev pub Covers : ℕ → ObjectPool → (Object → ℕ) → Type 0
Covers K p live = (a : Object) → count a p.free_list + live a ≡ exists_in K p.block_count a

abbrev pub IsBalanced : ℕ → ObjectPool → List Object → Type 0
IsBalanced K p live = Covers K p (λ a. count a live)

pub count-append : (a : Object) (xs ys : List Object) → count a (xs ++ ys) ≡ count a xs + count a ys
count-append a [] ys = omega arith
count-append a (x ∷ xs) ys = omega (arith, count-append a xs ys)

count-push_objects :
    (a : Object) (rounds block j : ℕ) (free : List Object)
    → count a (push_objects rounds block j free)
      ≡ count a free
        + (if (a.block == block) && (ltb a.index (j + rounds) && ltb j (a.index + 1)) then 1 else 0)
unfolding push_objects
count-push_objects a zero block j free = ground arith
count-push_objects a (suc rounds) block j free = ground (
  arith,
  count-push_objects a rounds block (j + 1) (free ++ (record { block = block; index = j } ∷ [])),
  count-append a free (record { block = block; index = j } ∷ []),
)

grow-Covers :
    (K : ℕ) (p : ObjectPool) (live : Object → ℕ) → Covers K p live → Covers K (grow K p) live
unfolding grow
grow-Covers K p live b a = ground (arith, b a, count-push_objects a K p.block_count 0 p.free_list)

count-make_blocks :
    (K : ℕ) (a : Object) (rounds i : ℕ) (free : List Object)
    → count a free ≡ exists_in K i a
    → count a (make_blocks K rounds i free) ≡ exists_in K (i + rounds) a
unfolding make_blocks
count-make_blocks K a zero i free e = ground (arith, e)
count-make_blocks K a (suc rounds) i free e =
    count-make_blocks K a rounds (i + 1) (push_objects K i 0 free)
      (ground (arith, e, count-push_objects a K i 0 free))
    ∙ ap (λ n. exists_in K n a) {x = i + 1 + rounds} (omega arith)

-- After a grow the list is not empty.
length-push_objects :
    (rounds block j : ℕ) (free : List Object)
    → length (push_objects rounds block j free) ≡ length free + rounds
unfolding push_objects
length-push_objects zero block j free = omega arith
length-push_objects (suc rounds) block j free =
    let x : Object = record { block = block; index = j } in
    omega (
      arith,
      length-push_objects rounds block (j + 1) (free ++ (x ∷ [])),
      length-append free (x ∷ []),
    )

grown-Covers :
    (K : ℕ) (p : ObjectPool) (live : Object → ℕ)
    → Covers K p live
    → Covers K (grown_if_empty K p p.free_list) live
grown-Covers K p live b = go p.free_list
  where
    go : (free : List Object) → Covers K (grown_if_empty K p free) live
    go [] = grow-Covers K p live b
    go (x ∷ xs) = b

length-grown :
    (K : ℕ) (p : ObjectPool) → 0 < K → 0 < length (grown_if_empty K p p.free_list).free_list
unfolding grow
length-grown K p h = go p.free_list refl
  where
    go : (free : List Object) → p.free_list ≡ free → 0 < length (grown_if_empty K p free).free_list
    go [] e = omega (arith, length-push_objects K p.block_count 0 p.free_list, h)
    go (x ∷ xs) e = rw e (omega arith)

pub new-IsBalanced : (K n : ℕ) → IsBalanced K (new K n) []
unfolding new
new-IsBalanced K n a =
    let e = count-make_blocks K a ((n + K - 1) / K) 0 [] (ground arith) in
    let z : 0 + (n + K - 1) / K ≡ (n + K - 1) / K = omega arith in
    omega (arith, e ∙ ap (λ k. exists_in K k a) z)

pub take_back-some :
    (x : Object) (xs : List Object)
    → (ys : List Object) × (z : Object) × (take_back (x ∷ xs) ≡ some (ys, z))
      × ((a : Object) → count a (x ∷ xs) ≡ same a z + count a ys)
take_back-some x [] = ([], x, refl, λ a. refl)
take_back-some x (y ∷ xs) =
    let (ys, z, e, c) = take_back-some y xs in (x ∷ ys, z, rw e refl, λ a. omega (arith, c a))

same_refl : (a : Object) → same a a ≡ 1
same_refl a = rw (==_refl a.block, ==_refl a.index) refl

exists_in_le : (K n : ℕ) (a : Object) → exists_in K n a ≤ 1
exists_in_le K n a = ground arith

-- What `acquire` does to a pool with these live objects.
abbrev pub Acquired : ℕ → ObjectPool → (Object → ℕ) → Type 0
Acquired K p live =
    (p' : ObjectPool) × (x : Object) × (acquire K p ≡ some (p', x))
    × Covers K p' (λ a. same a x + live a)
    × (live x ≡ 0)

take-Acquired :
    (K : ℕ) (p : ObjectPool) (free : List Object) (live : Object → ℕ)
    → p.free_list ≡ free
    → 0 < length free
    → Covers K p live
    → (p' : ObjectPool) × (x : Object) × (taken p (take_back p.free_list) ≡ some (p', x))
      × Covers K p' (λ a. same a x + live a)
      × (live x ≡ 0)
take-Acquired K p [] live e h b = absurd (omega arith)
take-Acquired K p (y ∷ ys) live e h b =
    let (rest, x, t, c) = take_back-some y ys in
    let bal : Covers K (record p { free_list = rest }) (λ a. same a x + live a) =
      λ a. omega (arith, b a, c a, ap (count a) e) in
    (
      record p { free_list = rest },
      x,
      rw (e, t) refl,
      bal,
      omega (arith, bal x, same_refl x, exists_in_le K p.block_count x),
    )

pub acquire-Acquired :
    (K : ℕ) (p : ObjectPool) (live : Object → ℕ) → 0 < K → Covers K p live → Acquired K p live
unfolding acquire
acquire-Acquired K p live h b =
    let p' = grown_if_empty K p p.free_list in
    take-Acquired K p' p'.free_list live refl (length-grown K p h) (grown-Covers K p live b)

pub release-Covers :
    (K : ℕ) (p : ObjectPool) (x : Object) (live : Object → ℕ)
    → Covers K p (λ a. same a x + live a)
    → Covers K (release p x) live
unfolding release
release-Covers K p x live b a = omega (arith, b a, count-append a p.free_list (x ∷ []))
