-- ===== src/NodeAllocator/Valid.antt =====
-- What holds between the calls, with the nodes that each cache has.
use rock_coro.Prelude.{
  ℕ, ◌+◌, ◌≤◌, ◌<◌, ◌≡◌, ◌≢◌, refl, sym, ◌∙◌, true, ◌==◌, arith, Bool-cases, inl, inr, ◌⊎◌, List,
  [], Option, none, some, ltb,
}
use rock_coro.NodeAllocator.{
  max_threads, cache_count, set, Nodes, Cache, NodeAllocator, init_thread_local_cache,
}
use rock_coro.NodeAllocator.Chain.{Has, Chain, Held, set_other}

pub record IsValid (s : NodeAllocator) (lists : ℕ → List ℕ) : Type 0 where
  pub held : (i : ℕ) → Held s.nodes (s.caches i) (lists i)
  pub apart : (i j a : ℕ) → Has a (lists i) → Has a (lists j) → i ≡ j
  pub bounded : (i : ℕ) → (s.caches i).count < cache_count
  pub registered : (t i : ℕ) → s.cache_index t ≡ some i → i < s.caches_count
  pub one_each : (t u i : ℕ) → s.cache_index t ≡ some i → s.cache_index u ≡ some i → t ≡ u
  pub in_bounds : s.caches_count ≤ max_threads
  pub unused : (i : ℕ) → s.caches_count ≤ i → lists i ≡ []

-- Allocated, and in no cache: a node that `get` has returned, and that has not been released since.
abbrev pub InUse : NodeAllocator → (ℕ → List ℕ) → ℕ → Type 0
InUse s lists a = (s.nodes.allocated a ≡ true) × ((i : ℕ) → ¬ Has a (lists i))

-- The thread has a cache, or there is one left.
abbrev pub MayRun : ℕ → NodeAllocator → Type 0
MayRun t s = ((i : ℕ) × (s.cache_index t ≡ some i)) ⊎ (s.caches_count < max_threads)

pub set_same : {A : Type 0} → (f : ℕ → A) (a : ℕ) (v : A) → set f a v a ≡ v
set_same f a v = let e : (a == a) ≡ true = ground arith in rw e refl

-- Another memory in which the nodes of a cache are as they were.
pub moved-Held :
    (n n' : Nodes) (c : Cache) (xs : List ℕ)
    → Held n c xs
    → Chain n'.next c.head xs
    → ((a : ℕ) → Has a xs → n'.allocated a ≡ true)
    → Held n' c xs
moved-Held n n' c xs h chain live = record {
  chain = chain;
  distinct = h.distinct;
  in_memory = live;
  counted = h.counted;
}

-- A new content of one cache.
module _ (s : NodeAllocator) (lists : ℕ → List ℕ) (v : IsValid s lists) (n : Nodes) (i : ℕ)
    (c : Cache) (xs : List ℕ) where
  pub put-IsValid :
      i < s.caches_count
      → Held n c xs
      → c.count < cache_count
      → ((j : ℕ) → j ≢ i → Held n (s.caches j) (lists j))
      → ((j a : ℕ) → j ≢ i → Has a xs → ¬ Has a (lists j))
      → IsValid (record s { nodes = n; caches = set s.caches i c }) (set lists i xs)
  put-IsValid lt h few others away = record {
    held =
        λ j. elim (Bool-cases (j == i)) [ inl e ↦ rw e h | inr e ↦ rw e (others j (ground arith)) ];
    apart = λ j k a p q. elim (Bool-cases (j == i)) [
      | inl e ↦ elim (Bool-cases (k == i)) [
        | inl f ↦ ground arith
        | inr f ↦ absurd (away k a (ground arith) (rw e at p) (rw f at q))
      ]
      | inr e ↦ elim (Bool-cases (k == i)) [
        | inl f ↦ absurd (away j a (ground arith) (rw f at q) (rw e at p))
        | inr f ↦ v.apart j k a (rw e at p) (rw f at q)
      ]
    ];
    bounded = λ j. elim (Bool-cases (j == i)) [ inl e ↦ rw e few | inr e ↦ rw e (v.bounded j) ];
    registered = v.registered;
    one_each = v.one_each;
    in_bounds = v.in_bounds;
    unused = λ j le. set_other lists i j xs (omega arith) ∙ v.unused j le;
  }

pub record Registered (t : ℕ) (s s' : NodeAllocator) (lists : ℕ → List ℕ) (i : ℕ) : Type 0 where
  pub valid : IsValid s' lists
  pub nodes_eq : s'.nodes ≡ s.nodes
  pub caches_eq : s'.caches ≡ s.caches
  pub own : s'.cache_index t ≡ some i

pub init_thread_local_cache_lem :
    (t : ℕ) (s : NodeAllocator) (lists : ℕ → List ℕ)
    → IsValid s lists
    → MayRun t s
    → (s' : NodeAllocator) × (i : ℕ) × (init_thread_local_cache t s ≡ some (s', i))
      × Registered t s s' lists i
unfolding init_thread_local_cache
init_thread_local_cache_lem t s lists v may = go (s.cache_index t) refl
  where
    go :
        (own : Option ℕ)
        → s.cache_index t ≡ own
        → (s' : NodeAllocator) × (i : ℕ) × (init_thread_local_cache t s ≡ some (s', i))
          × Registered t s s' lists i
    go (some i) e = (
      s,
      i,
      rw (e, init_thread_local_cache) refl,
      record { valid = v; nodes_eq = refl; caches_eq = refl; own = e },
    )
    go none e =
        let room : s.caches_count < max_threads = elim may [
          | inl (i, f) ↦ absurd (cc (sym e ∙ f))
          | inr lt ↦ lt
        ] in
        let open_test : ltb s.caches_count max_threads ≡ true = ground arith in
        (
          record s {
            caches_count = s.caches_count + 1;
            cache_index = set s.cache_index t (some s.caches_count);
          },
          s.caches_count,
          rw (e, init_thread_local_cache, open_test) refl,
          record {
            valid = record {
              held = v.held;
              apart = v.apart;
              bounded = v.bounded;
              registered = λ u i f. elim (Bool-cases (u == t)) [
                | inl g ↦ let same : s.caches_count ≡ i = cc (rw g at f) in omega (arith, same)
                | inr g ↦ omega (arith, v.registered u i (rw g at f))
              ];
              one_each = λ u w i f g. elim (Bool-cases (u == t)) [
                | inl a ↦ elim (Bool-cases (w == t)) [
                  | inl b ↦ ground arith
                  | inr b ↦
                      let same : s.caches_count ≡ i = cc (rw a at f) in
                      absurd (omega (arith, same, v.registered w i (rw b at g)))
                ]
                | inr a ↦ elim (Bool-cases (w == t)) [
                  | inl b ↦
                      let same : s.caches_count ≡ i = cc (rw b at g) in
                      absurd (omega (arith, same, v.registered u i (rw a at f)))
                  | inr b ↦ v.one_each u w i (rw a at f) (rw b at g)
                ]
              ];
              in_bounds = omega arith;
              unused = λ j le. v.unused j (omega arith);
            };
            nodes_eq = refl;
            caches_eq = refl;
            own = set_same s.cache_index t (some s.caches_count);
          },
        )
