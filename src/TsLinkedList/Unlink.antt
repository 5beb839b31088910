-- ===== src/TsLinkedList/Unlink.antt =====
-- The step of pop_front that moves the head on.
use rock_coro.Prelude.{
  ℕ, suc, ◌≤◌, ◌≡◌, ◌≢◌, refl, ◌∙◌, sym, subst, ap, inl, inr, Bool, true, false, ◌-◌, none, some,
  [], ◌∷◌, ◌++◌, arith, ◌==◌, ==_iff, Bool-cases, Option-cases,
}
use rock_coro.NodeAllocator.{set}
use rock_coro.TsLinkedList.{
  Queue, Thread, inside, pop_retry, pop_retire, pick, aborted, unlink, popped,
}
use rock_coro.TsLinkedList.System.{replay}
use rock_coro.TsLinkedList.Ghost.{Ghost, At, Linked, Memory, Local, vals_after}
use rock_coro.TsLinkedList.Later.{Later}
use rock_coro.TsLinkedList.Keep.{
  set_self, set_ne, roles_apart, node_injective, Stepped, no_advance, Stored-keep, stay,
  stored_node,
}
use rock_coro.TsLinkedList.Ends.{same_number, held_node}
use rock_coro.TsLinkedList.History.{replay-append}
use rock_coro.TaggedPtr.{get_ptr}

-- The first value goes.
popped-replay :
    (vals : ℕ → ℕ) (front n v : ℕ)
    → v ≡ vals (suc front)
    → replay (popped v ∷ []) (vals_after vals front (suc n)) ≡ some (vals_after vals (suc front) n)
unfolding replay
popped-replay vals front n v e = ground arith

module _ {G : Ghost} {q : Queue} {i : ℕ} {th : Thread} (m : Memory G q) (l : Local G q i th)
    (inn : inside th.pc ≡ true) (first next v : ℕ) where
  abbrev moved : Ghost
  moved = record G { front = suc G.front; popper = set G.popper G.front i }

  abbrev moved_queue : Queue
  moved_queue = record q { head = next; history = q.history ++ (popped v ∷ []) }

  is_front : (k : ℕ) → At G i first k → q.head ≡ first → k ≡ G.front
  is_front k a e =
      same_number m l (l.held k inn a.1 a.2)
        (m.linked G.front (omega arith) (omega (arith, m.front_behind, m.behind_last)))
        (ap get_ptr (sym a.0 ∙ sym e ∙ m.head_at))

  module _ (a : Linked G i first next G.front) (room : suc G.front ≤ G.behind)
      (is : v ≡ G.vals (suc G.front)) where
    moved-Memory : Memory moved moved_queue
    moved-Memory = record {
      head_at = a.1.0;
      tail_at = m.tail_at;
      front_behind = room;
      behind_last = m.behind_last;
      linked = λ k from to. m.linked k (omega arith) to;
      stored = λ b.
          Stored-keep G q moved moved_queue b (G.role b) (λ k. refl) (λ k. refl) refl (omega arith)
            refl refl refl refl refl (m.stored b);
      replayed =
          let (n, sum, replayed) = m.replayed in
          let more : n ≡ suc (n - 1) = omega (arith, m.behind_last) in
          (
            n - 1,
            omega (arith, m.behind_last),
            replay-append q.history (popped v ∷ []) []
                  (replayed ∙ ap (λ k. some (vals_after G.vals G.front k)) more)
                ∙ popped-replay G.vals G.front (n - 1) v is,
          );
    }

    unretired_yet : q.retired (get_ptr first) ≡ none
    unretired_yet = elim (Option-cases (q.retired (get_ptr first))) [
      | inl e ↦ e
      | inr (stamp, e) ↦
          let old = (stored_node m l G.front (held_node m l inn a.0)).8 in
          absurd (omega (arith, old (λ z. cc)))
    ]

    moved-Local :
        Local moved moved_queue i
          (record th { pc = pick (get_ptr first == get_ptr next) aborted (pop_retire first v) })
    moved-Local = rw apart (record {
      entered_by = l.entered_by;
      since_by = λ p. omega (arith, l.since_by inn);
      held = λ k p. l.held k inn;
      stamped = λ k stamp p. l.stamped k stamp inn;
      fits = (G.front, a.0, omega arith, set_self G.popper G.front i, unretired_yet);
    })
      where
        apart : (get_ptr first == get_ptr next) ≡ false
        apart =
            let ne =
              roles_apart G.role (held_node m l inn a.0) (held_node m l inn a.1)
                (λ e. let same = node_injective e in absurd (omega arith)) in
            elim (Bool-cases (get_ptr first == get_ptr next)) [
              | inl e ↦ absurd (ne ((==_iff _ _).0 e))
              | inr e ↦ e
            ]

    moved-Later : (t : ℕ) (b : Bool) → t ≢ i → Later G q moved moved_queue t b
    moved-Later t b n = record {
      log_same = λ k h. refl;
      vals_same = λ k h. refl;
      front_up = omega arith;
      behind_up = omega arith;
      last_up = omega arith;
      clock_up = omega arith;
      since_same = refl;
      popper_same = λ k h. set_ne G.popper G.front i (omega arith);
      mine_same = λ a h. (h, refl, refl);
      unretired = λ k p h r. r;
      node_same = λ k p from to h. h;
      node_new = λ k lt to. absurd (omega arith);
      stamp_old = λ a stamp h. inl h;
    }

  -- The compare-exchange of head_, whether it succeeds or not.
  pub unlink-Stepped :
      (b : Bool) (k : ℕ)
      → (b ≡ true → q.head ≡ first)
      → Linked G i first next k
      → suc k ≤ G.behind
      → v ≡ G.vals (suc k)
      → let (q', th') = unlink b first next v q th in Stepped G q i q' th'
  unfolding unlink
  unlink-Stepped true k same a room is =
      let e = is_front k a.0 (same refl) in
      let a' : Linked G i first next G.front = subst (Linked G i first next) e a in
      let room' : suc G.front ≤ G.behind = omega arith in
      let is' : v ≡ G.vals (suc G.front) = is ∙ ap (λ k. G.vals (suc k)) e in
      record {
        ghost = moved;
        advance = no_advance G q moved moved_queue refl refl refl;
        memory = moved-Memory a' room' is';
        local = moved-Local a' room' is';
        later = moved-Later a' room' is';
      }
  unlink-Stepped false k same a room is = stay m l pop_retry (λ p. inn) tt
