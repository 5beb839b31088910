-- ===== src/TsLinkedList/Runs.antt =====
-- The invariant holds in every run, and with it no thread touches a node that was released.
use rock_coro.Prelude.{
  AllOf, ℕ, ◌<◌, ◌≡◌, ◌≢◌, refl, ◌∙◌, sym, subst, ap, inl, inr, true, false, List, [], ◌∷◌, arith,
  ltb, ◌==◌, ==_iff, Bool-cases, if_true, if_false,
}
use rock_coro.NodeAllocator.{set}
use rock_coro.TsLinkedList.{
  Pc, push_value, push_clear, push_next, push_link, pop_check_first, pop_check_last, pop_next,
  pop_value, aborted, Queue, Thread, inside, thread_at, init,
}
use rock_coro.TsLinkedList.System.{
  System, Event, act, release, act_step, can_release, queue_step, start, run_events, replay,
}
use rock_coro.TsLinkedList.Ghost.{free, owned, node, Ghost, At, Fits, Stored, Memory, Local, Inv}
use rock_coro.TsLinkedList.Later.{Local-Later}
use rock_coro.TsLinkedList.Keep.{set_self, set_ne, Stepped, stored_node, stored_mine}
use rock_coro.TsLinkedList.Ends.{held_node}
use rock_coro.TsLinkedList.Steps.{thread_at-Stepped}
use rock_coro.TsLinkedList.Release.{release-Inv}
use rock_coro.TaggedPtr.{get_ptr}

-- Each thread holds what it did, after a step of thread `i`.
pub stepped-Inv :
    (G : Ghost) (s : System) (i : ℕ) (q : Queue) (th : Thread)
    → Inv G s
    → i < s.count
    → (st : Stepped G s.queue i q th)
    → Inv st.ghost (record s { queue = q; threads = set s.threads i th })
stepped-Inv G s i q th v lt st = record {
  memory = st.memory;
  locals = λ t. elim (Bool-cases (t == i)) [
    | inl e ↦
        subst (λ u. Local st.ghost q u (set s.threads i th u)) (sym ((==_iff t i).0 e))
          (subst (Local st.ghost q i) (sym (set_self s.threads i th)) st.local)
    | inr e ↦
        let ne : t ≢ i = ground arith in
        subst (Local st.ghost q t) (sym (set_ne s.threads i th ne))
          (Local-Later (st.later t (inside (s.threads t).pc) ne) (s.threads t) refl (v.locals t))
  ];
  others_idle =
      λ t ge. ap (λ (u : Thread). u.pc) (set_ne s.threads i th (omega arith)) ∙ v.others_idle t ge;
}

queue_step-Inv :
    (G : Ghost) (s : System) (e : Event) → Inv G s → (G' : Ghost) × Inv G' (queue_step e s)
unfolding queue_step
queue_step-Inv G s (act i c) v =
    unfold act_step in
    elim (Bool-cases (ltb i s.count)) [
      | inl e ↦
          let (q, th) = thread_at (s.threads i).pc c s.queue (s.threads i) in
          let st =
            thread_at-Stepped v.memory (v.locals i) (s.threads i).pc c refl (v.locals i).fits in
          rw e (st.ghost, stepped-Inv G s i q th v (ground arith) st)
      | inr e ↦ rw e (G, v)
    ]
queue_step-Inv G s (release a other) v =
    release-Inv G s a other (s.queue.retired a) (can_release (s.queue.retired a) s) v refl refl

run_events-Inv :
    (es : List Event) (G : Ghost) (s : System) → Inv G s → (G' : Ghost) × Inv G' (run_events es s)
unfolding run_events
run_events-Inv [] G s v = (G, v)
run_events-Inv (e ∷ es) G s v =
    let (G', v') = queue_step-Inv G s e v in run_events-Inv es G' (queue_step e s) v'

abbrev first_ghost : ℕ → Ghost
first_ghost dummy = record {
  log = λ k. dummy;
  vals = λ k. 0;
  front = 0;
  behind = 0;
  last = 0;
  since = λ t. 0;
  popper = λ k. 0;
  role = set (λ a. free) (get_ptr dummy) (node 0);
}

start-Stored :
    (count dummy a : ℕ)
    → get_ptr dummy ≢ 0
    → Stored (first_ghost dummy) (start count dummy).queue a ((first_ghost dummy).role a)
unfolding start get_ptr
start-Stored count dummy a nz = elim (Bool-cases (a == get_ptr dummy)) [
  | inl e ↦
      let same : a ≡ get_ptr dummy = (==_iff a (get_ptr dummy)).0 e in
      subst (Stored (first_ghost dummy) (start count dummy).queue a)
        (sym (if_true (a == get_ptr dummy) (node 0) free e))
        (
          λ z. nz (sym same ∙ z),
          if_true _ _ _ e,
          if_true (a == get_ptr dummy) false false e,
          same,
          omega arith,
          refl,
          λ lt. absurd (omega arith),
          λ z. if_true (a == get_ptr dummy) 0 0 e,
          λ z. absurd (z refl),
        )
  | inr e ↦
      subst (Stored (first_ghost dummy) (start count dummy).queue a)
        (sym (if_false (a == get_ptr dummy) (node 0) free e)) refl
]

start-Inv : (count dummy : ℕ) → get_ptr dummy ≢ 0 → Inv (first_ghost dummy) (start count dummy)
unfolding start get_ptr replay
start-Inv count dummy nz = record {
  memory = record {
    head_at = refl;
    tail_at = refl;
    front_behind = omega arith;
    behind_last = omega arith;
    linked = λ k from to.
        let first : 0 ≡ k = omega arith in
        set_self (λ a. free) (get_ptr dummy) (node 0) ∙ ap node first;
    stored = λ a. start-Stored count dummy a nz;
    replayed = (0, omega arith, refl);
  };
  locals = λ t. record {
    entered_by = omega arith;
    since_by = λ p. cc;
    held = λ k p from to. cc;
    stamped = λ k stamp p from to r. cc;
    fits = tt;
  };
  others_idle = λ t ge. refl;
}

-- In every run.
pub reached-Inv :
    (count dummy : ℕ) (es : List Event)
    → get_ptr dummy ≢ 0
    → (G : Ghost) × Inv G (run_events es (start count dummy))
reached-Inv count dummy es nz =
    run_events-Inv es (first_ghost dummy) (start count dummy) (start-Inv count dummy nz)

-- The nodes that a thread is about to read or write.
abbrev pub accesses : Pc → List ℕ
accesses (push_value w v) = w ∷ []
accesses (push_clear w v) = w ∷ []
accesses (push_next w last v) = last ∷ []
accesses (push_link w last next v) = last ∷ []
accesses (pop_check_first first last) = first ∷ []
accesses (pop_check_last first last) = last ∷ []
accesses (pop_next first last) = first ∷ []
accesses (pop_value first next) = next ∷ []
accesses _ = []

-- Neither null, nor freed, nor handed back.
abbrev pub IsUsable : Queue → ℕ → Type 0
IsUsable q w = (get_ptr w ≢ 0) × (q.live (get_ptr w) ≡ true) × (q.released (get_ptr w) ≡ false)

module _ {G : Ghost} {q : Queue} {i : ℕ} {th : Thread} (m : Memory G q) (l : Local G q i th) where
  held-IsUsable : {w k : ℕ} → inside th.pc ≡ true → At G i w k → IsUsable q w
  held-IsUsable {k} inn a = let s = stored_node m l k (held_node m l inn a) in (s.0, s.1, s.2)

  mine-IsUsable : (w : ℕ) → G.role (get_ptr w) ≡ owned i → IsUsable q w
  mine-IsUsable w e = let s = stored_mine m l e in (s.0, s.1, s.2)

  accesses-IsUsable : (pc : Pc) → th.pc ≡ pc → Fits G q i pc → AllOf (IsUsable q) (accesses pc)
  accesses-IsUsable (push_value n v) at f = (mine-IsUsable n f, tt)
  accesses-IsUsable (push_clear n v) at f = (mine-IsUsable n f.0, tt)
  accesses-IsUsable (push_next n last v) at f = (held-IsUsable (ap inside at) f.1.1, tt)
  accesses-IsUsable (push_link n last next v) at f = (held-IsUsable (ap inside at) f.1.1, tt)
  accesses-IsUsable (pop_check_first first last) at f = (held-IsUsable (ap inside at) f.2, tt)
  accesses-IsUsable (pop_check_last first last) at f = (held-IsUsable (ap inside at) f.3, tt)
  accesses-IsUsable (pop_next first last) at f = (held-IsUsable (ap inside at) f.2, tt)
  accesses-IsUsable (pop_value first next) at f = (held-IsUsable (ap inside at) f.1.1, tt)
  accesses-IsUsable pc at f = tt

  not_aborted : Fits G q i th.pc → th.pc ≢ aborted
  not_aborted f e = subst (Fits G q i) e f

-- The call of init at the beginning of push_back and pop_front.
init-Memory : {G : Ghost} {q : Queue} (other : ℕ) → Memory G q → init other q ≡ q
unfolding init
init-Memory {G} {q} other m =
    let s =
      subst (Stored G q (get_ptr (G.log G.front)))
        (m.linked G.front (omega arith)
          (let a = m.front_behind in let b = m.behind_last in omega arith))
        (m.stored (get_ptr (G.log G.front))) in
    let nz : get_ptr q.head ≢ 0 = λ e. s.0 (sym (ap get_ptr m.head_at) ∙ e) in
    if_false (get_ptr q.head == 0) _ _ (ground arith)

-- After any interleaving of the calls of any number of threads on an initialised queue, in which the
-- epochs release a retired node only when no thread is in an epoch that it entered before: each node
-- that a thread is about to read or write is not null, is live and is not marked as released; no
-- assert has failed and no node has been retired twice; and init does nothing when it is called again.
pub no_use_after_release :
    (count dummy : ℕ) (es : List Event) (t other : ℕ)
    → get_ptr dummy ≢ 0
    → let s = run_events es (start count dummy) in
      AllOf (IsUsable s.queue) (accesses (s.threads t).pc)
      × ((s.threads t).pc ≢ aborted)
      × (init other s.queue ≡ s.queue)
no_use_after_release count dummy es t other nz =
    let (G, v) = reached-Inv count dummy es nz in
    let l = v.locals t in
    (
      accesses-IsUsable v.memory l _ refl l.fits,
      not_aborted v.memory l l.fits,
      init-Memory other v.memory,
    )
