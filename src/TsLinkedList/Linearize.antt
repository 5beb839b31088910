-- ===== src/TsLinkedList/Linearize.antt =====
-- The queue against the list of its values.
use rock_coro.Prelude.{
  ℕ, zero, suc, ◌+◌, ◌≤◌, ◌≡◌, ◌≢◌, refl, ◌∙◌, sym, ap, ap₂, false, some, List, [], ◌∷◌, ◌++◌,
  arith, length, length-append, ◌==◌,
}
use rock_coro.TsLinkedList.{Queue, Op, pushed, popped, was_empty}
use rock_coro.TsLinkedList.System.{Event, start, run_events, replay, values_from}
use rock_coro.TsLinkedList.Ghost.{Ghost, Stored, Memory, node, vals_after}
use rock_coro.TsLinkedList.Runs.{reached-Inv}
use rock_coro.TaggedPtr.{get_ptr}

length-replay :
    (ops : List Op) (xs : List ℕ) {ys : List ℕ}
    → replay ops xs ≡ some ys
    → length ys ≤ length xs + length ops
unfolding replay
length-replay [] xs e = ground arith
length-replay (pushed v ∷ ops) xs e =
    omega (arith, length-replay ops (xs ++ (v ∷ [])) e, length-append xs (v ∷ []))
length-replay (popped v ∷ ops) [] e = cc
length-replay (popped v ∷ ops) (x ∷ xs) {ys} e = ground (arith, length-replay ops xs {ys = ys})
length-replay (was_empty ∷ ops) [] e = omega (arith, length-replay ops [] e)
length-replay (was_empty ∷ ops) (x ∷ xs) e = cc

length-vals_after : (vals : ℕ → ℕ) (i n : ℕ) → length (vals_after vals i n) ≡ n
length-vals_after vals i zero = refl
length-vals_after vals i (suc n) = ap suc (length-vals_after vals (suc i) n)

module _ {G : Ghost} {q : Queue} (m : Memory G q) where
  pub node_at : (k : ℕ) → G.front ≤ k → k ≤ G.last → Stored G q (get_ptr (G.log k)) (node k)
  node_at k from to = rw (m.linked k from to) at (m.stored (get_ptr (G.log k)))

  values_from_lem :
      (fuel n k : ℕ)
      → n ≤ fuel
      → n + k ≡ G.last
      → G.front ≤ k
      → values_from fuel (G.log k) q ≡ vals_after G.vals k n
  unfolding values_from get_ptr
  values_from_lem zero zero k le sum from = refl
  values_from_lem zero (suc n) k le sum from = absurd (omega arith)
  values_from_lem (suc fuel) zero k le sum from =
      rw ((node_at k from (omega arith)).7 (omega arith))
  values_from_lem (suc fuel) (suc n) k le sum from =
      let nz = (node_at (suc k) (omega arith) (omega arith)).0 in
      let there : (get_ptr (G.log (suc k)) == 0) ≡ false = ground arith in
      rw ((node_at k from (omega arith)).6 (omega arith), there)
        (ap₂ ◌∷◌ (node_at (suc k) (omega arith) (omega arith)).5
          (values_from_lem fuel n (suc k) (omega arith) (omega arith) (omega arith)))

  -- There are no more of them than calls.
  pub few_nodes : (n : ℕ) → n + G.front ≡ G.last → n ≤ length q.history
  few_nodes n sum =
      let (n', sum', replayed) = m.replayed in
      omega (arith, length-replay q.history [] replayed, length-vals_after G.vals G.front n')

-- After any interleaving of the calls of any number of threads on an initialised queue, in which the
-- epochs release a retired node only when no thread is in an epoch that it entered before: the calls
-- that have taken effect, in this order, are calls of an unbounded first-in first-out queue, in which
-- each pop_front takes the value that it has read and finds the queue empty where it returns null;
-- and what this queue then holds are the values of the nodes that follow the head in memory, for any
-- bound on their number from the number of the calls on.
pub queue_is_linearizable :
    (count dummy : ℕ) (es : List Event) (fuel : ℕ)
    → get_ptr dummy ≢ 0
    → length (run_events es (start count dummy)).queue.history ≤ fuel
    → let q = (run_events es (start count dummy)).queue in
      replay q.history [] ≡ some (values_from fuel q.head q)
queue_is_linearizable count dummy es fuel nz enough =
    let (G, v) = reached-Inv count dummy es nz in
    let m = v.memory in
    let (n, sum, replayed) = m.replayed in
    let q = (run_events es (start count dummy)).queue in
    replayed
    ∙ ap some (
        sym (
          ap (λ w. values_from fuel w q) m.head_at
          ∙ values_from_lem m fuel n G.front (omega (arith, few_nodes m n sum)) sum (omega arith)))
