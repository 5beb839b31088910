-- ===== src/TsLinkedList/Progress.antt =====
-- A call ends if from some time on no other thread takes a step.
use rock_coro.Prelude.{
  ◌∙◌, ap, ℕ, zero, suc, ◌*◌, ◌<◌, ◌≡◌, ◌≢◌, refl, ◌⊎◌, inl, inr, false, List, arith, lt→ltb,
  if_true, replicate,
}
use rock_coro.NodeAllocator.{set}
use rock_coro.TsLinkedList.{Pc, idle, Queue, Thread, go, thread_at}
use rock_coro.TsLinkedList.System.{System, Event, act, act_step, queue_step, start, run_events}
use rock_coro.TsLinkedList.Ghost.{Ghost, Inv}
use rock_coro.TsLinkedList.Keep.{Stepped, set_self}
use rock_coro.TsLinkedList.Steps.{thread_at-Stepped}
use rock_coro.TsLinkedList.Runs.{stepped-Inv, reached-Inv}
use rock_coro.TsLinkedList.Solo.{waits_for_node, lag, steps_left, fewer_left}
use rock_coro.TaggedPtr.{get_ptr}

-- A thread that takes all the steps, where no compare-exchange fails for no reason.
abbrev pub alone : ℕ → ℕ → List Event
alone k t = replicate k (act t go)

idle-cases : (pc : Pc) → (pc ≡ idle) ⊎ (pc ≢ idle)
idle-cases idle = inl refl
idle-cases pc = inr (λ e. cc)

not_waiting :
    (pc : Pc) (q : Queue) (th : Thread)
    → th.pc ≡ pc
    → waits_for_node pc ≡ false
    → waits_for_node (thread_at pc go q th).1.pc ≡ false
unfolding thread_at
not_waiting idle q th at w = rw at
not_waiting pc q th at w = ground arith

alone-idle :
    (n : ℕ) (G : Ghost) (s : System) (t : ℕ)
    → Inv G s
    → t < s.count
    → waits_for_node (s.threads t).pc ≡ false
    → steps_left (16 * lag G) s.queue (s.threads t).pc < n
    → (k : ℕ) × (((run_events (alone k t) s).threads t).pc ≡ idle)
unfolding run_events
alone-idle zero G s t v lt w few = absurd (omega arith)
alone-idle (suc n) G s t v lt w few = elim (idle-cases (s.threads t).pc) [
  | inl e ↦ (0, e)
  | inr busy ↦
      let l = v.locals t in
      let (q, th) = thread_at (s.threads t).pc go s.queue (s.threads t) in
      let st : Stepped G s.queue t q th =
        thread_at-Stepped v.memory l (s.threads t).pc go refl l.fits in
      let here : set s.threads t th t ≡ th = set_self s.threads t th in
      let left = fewer_left v.memory l (s.threads t).pc refl busy w l.fits st in
      let waiting = not_waiting (s.threads t).pc s.queue (s.threads t) refl w in
      let after : System = record s { queue = q; threads = set s.threads t th } in
      let (k, done) =
        alone-idle n st.ghost after t (stepped-Inv G s t q th v lt st) lt (rw here waiting)
          (rw here (omega arith)) in
      (suc k, ap (λ u. ((run_events (alone k t) u).threads t).pc) (alone_step s t lt) ∙ done)
]
  where
    alone_step :
        (s : System) (t : ℕ)
        → t < s.count
        → queue_step (act t go) s ≡ record s {
          queue = (thread_at (s.threads t).pc go s.queue (s.threads t)).0;
          threads = set s.threads t (thread_at (s.threads t).pc go s.queue (s.threads t)).1;
        }
    alone_step s t lt = unfold queue_step act_step in if_true _ _ _ (lt→ltb t s.count lt)

-- After any interleaving of the calls of any number of threads on an initialised queue, in which the
-- epochs release a retired node only when no thread is in an epoch that it entered before: a thread
-- that is not waiting for a node ends its call in some number of its own steps, if from then on no
-- other thread takes a step and no compare-exchange fails for no reason.
pub call_ends_alone :
    (count dummy : ℕ) (es : List Event) (t : ℕ)
    → get_ptr dummy ≢ 0
    → t < (run_events es (start count dummy)).count
    → waits_for_node ((run_events es (start count dummy)).threads t).pc ≡ false
    → (k : ℕ) × (((run_events (alone k t) (run_events es (start count dummy))).threads t).pc ≡ idle)
call_ends_alone count dummy es t nz lt w =
    let (G, v) = reached-Inv count dummy es nz in
    let s = run_events es (start count dummy) in
    alone-idle (suc (steps_left (16 * lag G) s.queue (s.threads t).pc)) G s t v lt w (omega arith)
