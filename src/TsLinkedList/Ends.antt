-- ===== src/TsLinkedList/Ends.antt =====
-- Steps at the ends of the queue: the compare-exchange of tail_, the link, and a failed load.
use rock_coro.Prelude.{
  ℕ, suc, ◌≤◌, ◌<◌, ◌≢◌, ◌≡◌, refl, ◌∙◌, sym, subst, ap, inl, inr, Bool, true, false, some, [], ◌∷◌,
  ◌++◌, arith, ◌==◌, ==_iff, Bool-cases,
}
use rock_coro.NodeAllocator.{}
use rock_coro.TsLinkedList.{Pc, Queue, Thread, inside, swing, was_empty}
use rock_coro.TsLinkedList.System.{replay}
use rock_coro.TsLinkedList.Ghost.{node, Ghost, At, Linked, Fits, Memory, Local, vals_after}
use rock_coro.TsLinkedList.Later.{}
use rock_coro.TsLinkedList.Keep.{
  stored_node, node_injective, Stepped, no_advance, Stored-keep, same_ghost, stay,
}
use rock_coro.TsLinkedList.History.{replay-append}
use rock_coro.TaggedPtr.{get_ptr}

module _ {G : Ghost} {q : Queue} {i : ℕ} {th : Thread} (m : Memory G q) (l : Local G q i th) where
  -- Two numbers with one node, both of them not released.
  pub same_number :
      {k n : ℕ}
      → G.role (get_ptr (G.log k)) ≡ node k
      → G.role (get_ptr (G.log n)) ≡ node n
      → get_ptr (G.log k) ≡ get_ptr (G.log n)
      → k ≡ n
  same_number p r e = node_injective (sym p ∙ ap G.role e ∙ r)

  module _ (inn : inside th.pc ≡ true) where
    -- A node that the thread holds.
    pub held_node : {w k : ℕ} → At G i w k → G.role (get_ptr w) ≡ node k
    held_node {w} {k} (is, from, to) =
        subst (λ x. G.role (get_ptr x) ≡ node k) (sym is) (l.held k inn from to)

    -- The node after it, if there is one.
    pub after :
        {w k : ℕ}
        → At G i w k
        → get_ptr (q.next (get_ptr w)) ≢ 0
        → Linked G i w (q.next (get_ptr w)) k
    unfolding get_ptr
    after {w} {k} a nz =
        let s = stored_node m l k (held_node a) in
        elim (Bool-cases (k == G.last)) [
          | inl e ↦ absurd (nz (ap get_ptr (s.7 (ground arith))))
          | inr e ↦
              let below : k < G.last = ground (arith, a.2) in
              (a, (s.6 below, omega (arith, a.1), below))
        ]

    -- A node with a null next is the last one.
    pub null_is_last : {w k : ℕ} → At G i w k → get_ptr (q.next (get_ptr w)) ≡ 0 → k ≡ G.last
    null_is_last {w} {k} a null = elim (Bool-cases (k == G.last)) [
      | inl same ↦ ground arith
      | inr other ↦
          let below : k < G.last = ground (arith, a.2) in
          let next = (stored_node m l k (held_node a)).6 below in
          let from : G.since i ≤ suc k = omega (arith, a.1) in
          let nz = (stored_node m l (suc k) (l.held (suc k) inn from below)).0 in
          absurd (nz (ap get_ptr (sym next) ∙ null))
    ]

    -- The tail, if it is a word that the thread holds.
    tail_number : {w k : ℕ} → At G i w k → q.tail ≡ w → k ≡ G.behind
    tail_number a e =
        same_number (l.held _ inn a.1 a.2) (m.linked G.behind m.front_behind m.behind_last)
          (ap get_ptr (sym a.0 ∙ sym e ∙ m.tail_at))

    abbrev swung : Ghost
    swung = record G { behind = suc G.behind }

    swing_now :
        (last next k : ℕ) (pc : Pc)
        → Linked G i last next k
        → q.tail ≡ last
        → Fits swung (record q { tail = next }) i pc
        → Stepped G q i (record q { tail = next }) (record th { pc = pc })
    swing_now last next k pc (a, c) e f = record {
      ghost = swung;
      advance = record {
        behind_same = λ same.
            let there = subst (λ x. G.role (get_ptr x) ≡ node (suc k)) (same ∙ e) (held_node c) in
            let again = node_injective (sym (held_node a) ∙ there) in absurd (omega arith);
        behind_next = λ n. refl;
        last_same = λ h. refl;
      };
      memory = record {
        head_at = m.head_at;
        tail_at = c.0 ∙ ap (λ n. G.log (suc n)) (tail_number a e);
        front_behind = omega (arith, m.front_behind);
        behind_last = omega (arith, tail_number a e);
        linked = m.linked;
        stored = λ b.
            Stored-keep G q swung (record q { tail = next }) b (G.role b) (λ k. refl) (λ k. refl)
              refl (omega arith) refl refl refl refl refl (m.stored b);
        replayed = m.replayed;
      };
      local = record {
        entered_by = l.entered_by;
        since_by = λ p. l.since_by inn;
        held = λ k p. l.held k inn;
        stamped = λ k stamp p. l.stamped k stamp inn;
        fits = f;
      };
      later = λ t b n. record {
        log_same = λ k h. refl;
        vals_same = λ k h. refl;
        front_up = omega arith;
        behind_up = omega arith;
        last_up = omega arith;
        clock_up = omega arith;
        since_same = refl;
        popper_same = λ k h. refl;
        mine_same = λ a h. (h, refl, refl);
        unretired = λ k p h r. r;
        node_same = λ k p from to h. h;
        node_new = λ k lt to. absurd (omega arith);
        stamp_old = λ a stamp h. inl h;
      };
    }

    -- The compare-exchange of tail_, whether it succeeds or not.
    pub swing-Stepped :
        (b : Bool) (last next k : ℕ) (pc : Pc)
        → Linked G i last next k
        → Fits G q i pc
        → Fits swung (record q { tail = next }) i pc
        → Stepped G q i (swing b last next q) (record th { pc = pc })
    unfolding swing
    swing-Stepped false last next k pc a f f' = stay m l pc (λ p. inn) f
    swing-Stepped true last next k pc a f f' = elim (Bool-cases (q.tail == last)) [
      | inl e ↦ rw e (swing_now last next k pc a ((==_iff q.tail last).0 e) f')
      | inr e ↦ rw e (stay m l pc (λ p. inn) f)
    ]

    -- A load of a null next_ from the head that is also the tail: the queue is empty.
    pub empty-Stepped :
        (pc : Pc)
        → G.front ≡ G.last
        → ((q' : Queue) → Fits G q' i pc)
        → Stepped G q i
            (record q { history = q.history ++ (was_empty ∷ []) })
            (record th { pc = pc })
    unfolding replay
    empty-Stepped pc e f = record {
      ghost = G;
      advance =
          no_advance G q G (record q { history = q.history ++ (was_empty ∷ []) }) refl refl refl;
      memory = record {
        head_at = m.head_at;
        tail_at = m.tail_at;
        front_behind = m.front_behind;
        behind_last = m.behind_last;
        linked = m.linked;
        stored = λ a.
            Stored-keep G q G (record q { history = q.history ++ (was_empty ∷ []) }) a (G.role a)
              (λ k. refl) (λ k. refl) refl (omega arith) refl refl refl refl refl (m.stored a);
        replayed =
            let (n, sum, replayed) = m.replayed in
            let none_left : n ≡ 0 = omega arith in
            (
              0,
              omega arith,
              replay-append q.history (was_empty ∷ []) []
                  (replayed ∙ ap (λ k. some (vals_after G.vals G.front k)) none_left),
            );
      };
      local = record {
        entered_by = l.entered_by;
        since_by = λ p. l.since_by inn;
        held = λ k p. l.held k inn;
        stamped = λ k stamp p. l.stamped k stamp inn;
        fits = f (record q { history = q.history ++ (was_empty ∷ []) });
      };
      later = λ t b n.
          same_ghost G q (record q { history = q.history ++ (was_empty ∷ []) }) t b (omega arith)
            (λ a h. (refl, refl)) (λ k p h r. r) (λ a stamp h. inl h);
    }
