-- ===== src/TsLinkedList/Own.antt =====
-- Steps of a thread on its own node: enter_epoch, get, and the two stores of push_back.
use rock_coro.Prelude.{
  ℕ, ◌≤◌, ◌≡◌, ◌≢◌, refl, ◌∙◌, sym, subst, ap, inl, inr, false, arith, ◌==◌, ==_iff, Bool-cases,
}
use rock_coro.NodeAllocator.{set}
use rock_coro.TsLinkedList.{Pc, Queue, Thread, inside}
use rock_coro.TsLinkedList.Ghost.{owned, Ghost, Fits, Stored, Memory, Local, Mine}
use rock_coro.TsLinkedList.Later.{}
use rock_coro.TsLinkedList.Keep.{
  set_self, set_ne, roles_apart, Stepped, no_advance, Stored-keep, same_ghost, stored_node,
  stored_mine,
}
use rock_coro.TaggedPtr.{get_ptr}
use rock_coro.TaggedPtr.Fields.{}

module _ {G : Ghost} {q : Queue} {i : ℕ} {th : Thread} (m : Memory G q) (l : Local G q i th) where
  abbrev pub entered_ghost : Ghost
  entered_ghost = record G { since = set G.since i G.front }

  pub enter-Stepped :
      (pc : Pc)
      → Fits entered_ghost q i pc
      → Stepped G q i q (record th { pc = pc; entered = q.clock })
  enter-Stepped pc f = record {
    ghost = entered_ghost;
    advance = no_advance G q entered_ghost q refl refl refl;
    memory = record {
      head_at = m.head_at;
      tail_at = m.tail_at;
      front_behind = m.front_behind;
      behind_last = m.behind_last;
      linked = m.linked;
      stored = λ a.
          Stored-keep G q entered_ghost q a (G.role a) (λ k. refl) (λ k. refl) refl (omega arith)
            refl refl refl refl refl (m.stored a);
      replayed = m.replayed;
    };
    local = record {
      entered_by = omega arith;
      since_by = λ p. omega (arith, set_self G.since i G.front);
      held = λ k p from to. m.linked k (omega (arith, set_self G.since i G.front)) to;
      stamped = λ k stamp p from to r.
          let above : G.front ≤ k = omega (arith, set_self G.since i G.front) in
          let none_yet = (stored_node m l k (m.linked k above to)).8 in
          absurd (omega (arith, none_yet (λ e. cc)));
      fits = f;
    };
    later = λ t b n. record {
      log_same = λ k h. refl;
      vals_same = λ k h. refl;
      front_up = omega arith;
      behind_up = omega arith;
      last_up = omega arith;
      clock_up = omega arith;
      since_same = set_ne G.since i G.front n;
      popper_same = λ k h. refl;
      mine_same = λ a h. (h, refl, refl);
      unretired = λ k p h r. r;
      node_same = λ k p from to h. h;
      node_new = λ k lt to. absurd (omega arith);
      stamp_old = λ a stamp h. inl h;
    };
  }

  -- A store to a node of the thread's own.
  module _ (w : ℕ) (mine : Mine G i w) (q' : Queue)
      (value_same : (a : ℕ) → a ≢ get_ptr w → q'.value a ≡ q.value a)
      (next_same : (a : ℕ) → a ≢ get_ptr w → q'.next a ≡ q.next a)
      (rest : record {
        head : q'.head ≡ q.head;
        tail : q'.tail ≡ q.tail;
        live : (a : ℕ) → q'.live a ≡ q.live a;
        released : (a : ℕ) → q'.released a ≡ q.released a;
        retired : (a : ℕ) → q'.retired a ≡ q.retired a;
        clock : q'.clock ≡ q.clock;
        history : q'.history ≡ q.history;
      }) where
    store-Stored : (a : ℕ) → Stored G q' a (G.role a)
    store-Stored a = elim (Bool-cases (a == get_ptr w)) [
      | inl e ↦
          let here : G.role a ≡ owned i = ap G.role ((==_iff a (get_ptr w)).0 e) ∙ mine in
          let old = stored_mine m l here in
          subst (Stored G q' a) (sym here)
            (old.0, rest.live a ∙ old.1, rest.released a ∙ old.2, rest.retired a ∙ old.3)
      | inr e ↦
          let apart : a ≢ get_ptr w = ground arith in
          Stored-keep G q G q' a (G.role a) (λ k. refl) (λ k. refl) refl (omega arith)
            (next_same a apart) (value_same a apart) (rest.live a) (rest.released a)
            (rest.retired a) (m.stored a)
    ]

    pub store-Stepped :
        (pc : Pc) → inside pc ≡ false → Fits G q' i pc → Stepped G q i q' (record th { pc = pc })
    store-Stepped pc out f = record {
      ghost = G;
      advance = no_advance G q G q' rest.tail refl refl;
      memory = record {
        head_at = rest.head ∙ m.head_at;
        tail_at = rest.tail ∙ m.tail_at;
        front_behind = m.front_behind;
        behind_last = m.behind_last;
        linked = m.linked;
        stored = store-Stored;
        replayed = rw rest.history m.replayed;
      };
      local = record {
        entered_by = omega (arith, l.entered_by, rest.clock);
        since_by = λ p. cc;
        held = λ k p from to. cc;
        stamped = λ k stamp p from to r. cc;
        fits = f;
      };
      later = λ t b n.
          same_ghost G q q' t b (omega (arith, rest.clock))
            (λ a h.
              let apart : a ≢ get_ptr w = roles_apart G.role h mine (λ e. n (owned_injective e)) in
              (value_same a apart, next_same a apart))
            (λ k p h r. rest.retired _ ∙ r) (λ a stamp h. inl (sym (rest.retired a) ∙ h));
    }
      where
        owned_injective : {t u : ℕ} → owned t ≡ owned u → t ≡ u
        owned_injective e = cc
