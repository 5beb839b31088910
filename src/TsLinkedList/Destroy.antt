-- ===== src/TsLinkedList/Destroy.antt =====
-- The end of the queue: destroy retires what is in it.
use rock_coro.Prelude.{
  ℕ, zero, suc, ◌+◌, ◌≤◌, ◌<◌, ◌≡◌, ◌≢◌, refl, ◌∙◌, sym, subst, ap, inl, inr, false, some, none,
  List, [], ◌∷◌, arith, length, ◌==◌, Bool-cases, if◌then◌else◌, AllOf, Option-cases,
}
use rock_coro.NodeAllocator.{set}
use rock_coro.TsLinkedList.{Queue, retire_from, destroy}
use rock_coro.TsLinkedList.System.{Event, start, run_events}
use rock_coro.TsLinkedList.Ghost.{Ghost, Memory}
use rock_coro.TsLinkedList.Keep.{set_self, set_ne, roles_apart, node_injective}
use rock_coro.TsLinkedList.Runs.{reached-Inv}
use rock_coro.TsLinkedList.Linearize.{node_at, few_nodes}
use rock_coro.TaggedPtr.{get_ptr}

-- The nodes from `w` on, with fuel.
abbrev pub nodes_from : ℕ → ℕ → Queue → List ℕ
nodes_from zero w q = []
nodes_from (suc fuel) w q =
    let rest = nodes_from fuel (q.next (get_ptr w)) q in if get_ptr w == 0 then [] else w ∷ rest

-- A node that is retired after a call and was not before it.
abbrev pub IsRetiredNow : Queue → Queue → ℕ → Type 0
IsRetiredNow q q' w =
    (q.retired (get_ptr w) ≡ none) × ((stamp : ℕ) × (q'.retired (get_ptr w) ≡ some stamp))

module _ {G : Ghost} {q : Queue} (m : Memory G q) where
  -- Nothing from the head on is retired.
  unretired_at : (k : ℕ) → G.front ≤ k → k ≤ G.last → q.retired (get_ptr (G.log k)) ≡ none
  unretired_at k from to = elim (Option-cases (q.retired (get_ptr (G.log k)))) [
    | inl e ↦ e
    | inr (stamp, e) ↦ let passed = (node_at m k from to).8 (λ z. cc) in absurd (omega arith)
  ]

  apart : (j k : ℕ) → G.front ≤ j → j < k → k ≤ G.last → get_ptr (G.log j) ≢ get_ptr (G.log k)
  apart j k from lt to =
      roles_apart G.role (m.linked j from (omega arith)) (m.linked k (omega arith) to)
        (λ e. let same = node_injective e in absurd (omega arith))

  -- A state of the loop of destroy before node `k`: the nodes before it are retired.
  record Reached (k : ℕ) (p : Queue) : Type 0 where
    next_same : (a : ℕ) → p.next a ≡ q.next a
    done :
        (j : ℕ)
        → G.front ≤ j
        → j < k
        → j ≤ G.last
        → (stamp : ℕ) × (p.retired (get_ptr (G.log j)) ≡ some stamp)
    left : (j : ℕ) → k ≤ j → j ≤ G.last → p.retired (get_ptr (G.log j)) ≡ none

  retire_step : Queue → ℕ → Queue
  retire_step p k = record p {
    retired = set p.retired (get_ptr (G.log k)) (some p.clock);
    clock = p.clock + 1;
  }

  retire_step-Reached :
      (k : ℕ) (p : Queue)
      → G.front ≤ k
      → k ≤ G.last
      → Reached k p
      → Reached (suc k) (retire_step p k)
  unfolding retire_step
  retire_step-Reached k p from to r = record {
    next_same = r.next_same;
    done = λ j from' lt to'. elim (Bool-cases (j == k)) [
      | inl e ↦
          let same : j ≡ k = ground arith in
          (
            p.clock,
            ap (λ n. set p.retired (get_ptr (G.log k)) (some p.clock) (get_ptr (G.log n))) same
                ∙ set_self p.retired (get_ptr (G.log k)) (some p.clock),
          )
      | inr e ↦
          let before : j < k = ground arith in
          let (stamp, was) = r.done j from' before to' in
          (
            stamp,
            set_ne p.retired (get_ptr (G.log k)) (some p.clock) (apart j k from' before to) ∙ was,
          )
    ];
    left = λ j ge to'.
        set_ne p.retired (get_ptr (G.log k)) (some p.clock) (λ e. apart k j from ge to' (sym e))
        ∙ r.left j (omega arith) to';
  }

  -- A round of the loop.
  retire_from-round :
      (fuel k : ℕ) (p : Queue)
      → (get_ptr (G.log k) == 0) ≡ false
      → p.retired (get_ptr (G.log k)) ≡ none
      → retire_from (suc fuel) (G.log k) p
        ≡ retire_from fuel (p.next (get_ptr (G.log k))) (retire_step p k)
  unfolding retire_from retire_step
  retire_from-round fuel k p there fresh = rw (there, fresh)

  -- The loop goes through the nodes up to the last one.
  retire_from_lem :
      (fuel n k : ℕ) (p : Queue)
      → n < fuel
      → n + k ≡ suc G.last
      → G.front ≤ k
      → (w : ℕ) → (k ≤ G.last → w ≡ G.log k)
      → (k ≡ suc G.last → w ≡ 0)
      → Reached k p
      → (p' : Queue) × (retire_from fuel w p ≡ some p') × Reached (suc G.last) p'
  unfolding retire_from get_ptr retire_step
  retire_from_lem zero n k p enough sum from w at end r = absurd (omega arith)
  retire_from_lem (suc fuel) zero k p enough sum from w at end r =
      (p, rw (end (omega arith)), subst (λ j. Reached j p) (omega arith) r)
  retire_from_lem (suc fuel) (suc n) k p enough sum from w at end r =
      let to : k ≤ G.last = omega arith in
      let s = node_at m k from to in
      let there : (get_ptr (G.log k) == 0) ≡ false = ground (arith, s.0) in
      let (p', is, r') =
        retire_from_lem fuel n (suc k) (retire_step p k) (omega arith) (omega arith) (omega arith)
          (p.next (get_ptr (G.log k))) (λ lt. r.next_same _ ∙ s.6 lt)
          (λ e. r.next_same _ ∙ s.7 (omega arith)) (retire_step-Reached k p from to r) in
      (
        p',
        ap (λ u. retire_from (suc fuel) u p) (at to)
            ∙ retire_from-round fuel k p there (r.left k (omega arith) to)
            ∙ is,
        r',
      )

  -- The nodes that the list of nodes has are numbered from `k` to the last one.
  nodes_from-AllOf :
      (P : ℕ → Type 0) (fuel n k : ℕ)
      → n + k ≡ suc G.last
      → G.front ≤ k
      → (w : ℕ) → (k ≤ G.last → w ≡ G.log k)
      → (k ≡ suc G.last → w ≡ 0)
      → ((j : ℕ) → k ≤ j → j ≤ G.last → P (G.log j))
      → AllOf P (nodes_from fuel w q)
  unfolding get_ptr
  nodes_from-AllOf P zero n k sum from w at end h = tt
  nodes_from-AllOf P (suc fuel) zero k sum from w at end h = rw (end (omega arith)) tt
  nodes_from-AllOf P (suc fuel) (suc n) k sum from w at end h =
      let to : k ≤ G.last = omega arith in
      let s = node_at m k from to in
      let there : (get_ptr (G.log k) == 0) ≡ false = ground (arith, s.0) in
      subst (λ u. AllOf P (nodes_from (suc fuel) u q)) (sym (at to))
        (rw there (
          h k (omega arith) to,
          nodes_from-AllOf P fuel n (suc k) (omega arith) (omega arith) (q.next (get_ptr (G.log k)))
              (λ lt. s.6 lt) (λ e. s.7 (omega arith)) (λ j ge to'. h j (omega arith) to'),
        ))

-- After any interleaving of the calls of any number of threads on an initialised queue, in which the
-- epochs release a retired node only when no thread is in an epoch that it entered before: destroy
-- ends, for fuel above the number of the calls by two or more; it leaves both pointers null, and each
-- node from the head on was not retired before and is then, none of them twice.
pub destroy_retires_queue :
    (count dummy : ℕ) (es : List Event) (fuel : ℕ)
    → get_ptr dummy ≢ 0
    → length (run_events es (start count dummy)).queue.history + 2 ≤ fuel
    → let q = (run_events es (start count dummy)).queue in
      (q' : Queue) × (destroy fuel q ≡ some q')
      × (q'.head ≡ 0)
      × (q'.tail ≡ 0)
      × AllOf (IsRetiredNow q q') (nodes_from fuel q.head q)
unfolding destroy
destroy_retires_queue count dummy es fuel nz enough =
    let (G, v) = reached-Inv count dummy es nz in
    let m = v.memory in
    let q = (run_events es (start count dummy)).queue in
    let (n, sum, replayed) = m.replayed in
    let start_at : Reached m G.front q = record {
      next_same = λ a. refl;
      done = λ j from lt to. absurd (omega arith);
      left = λ j from to. unretired_at m j from to;
    } in
    let (p', is, r) =
      retire_from_lem m fuel (suc n) G.front q (omega (arith, few_nodes m n sum)) (omega arith)
        (omega arith) q.head (λ le. m.head_at) (λ e. absurd (omega arith)) start_at in
    let some_head : (get_ptr q.head == 0) ≡ false =
      ground (arith, m.head_at, (node_at m G.front (omega arith) (omega arith)).0) in
    (
      record p' { head = 0; tail = 0 },
      rw (some_head, is),
      refl,
      refl,
      nodes_from-AllOf m (IsRetiredNow q (record p' { head = 0; tail = 0 })) fuel (suc n) G.front
          (omega arith) (omega arith) q.head (λ le. m.head_at) (λ e. absurd (omega arith))
          (λ j from to. (unretired_at m j from to, r.done j from (omega arith) to)),
    )
