-- ===== src/TsLinkedList/Release.antt =====
-- The step in which the epochs release a node that no thread can still read.
use rock_coro.Prelude.{
  ℕ, zero, suc, ◌≤◌, ◌<◌, ◌≡◌, ◌≢◌, refl, ◌∙◌, sym, subst, ap, inl, inr, Bool, true, false, Option,
  none, some, arith, ltb, ◌==◌, Bool-cases, not, ◌&&◌, ◌||◌, if_true, if_false,
}
use rock_coro.NodeAllocator.{set}
use rock_coro.TsLinkedList.{Queue, Thread, inside}
use rock_coro.TsLinkedList.System.{System, all_later, release_node, can_release}
use rock_coro.TsLinkedList.Ghost.{Role, free, owned, node, Ghost, Stored, Memory, Inv}
use rock_coro.TsLinkedList.Later.{Later, Local-Later}
use rock_coro.TsLinkedList.Keep.{set_ne, roles_apart, node_injective, Stored-keep}
use rock_coro.TaggedPtr.{get_ptr}

all_later-lt :
    (n : ℕ) (ths : ℕ → Thread) (stamp t : ℕ)
    → all_later n ths stamp ≡ true
    → t < n
    → inside (ths t).pc ≡ true
    → stamp < (ths t).entered
unfolding all_later
all_later-lt zero ths stamp t h lt p = absurd (omega arith)
all_later-lt (suc n) ths stamp t h lt p = elim (Bool-cases (t == n)) [
  | inl e ↦
      let same : t ≡ n = ground arith in
      last (ths t) p (ground arith) (
        subst
          (λ k.
            (not (inside (ths k).pc) || ltb stamp (ths k).entered) && all_later n ths stamp ≡ true)
          (sym same) h)
  | inr e ↦ all_later-lt n ths stamp t (ground arith) (ground arith) p
]
  where
    last :
        (th : Thread)
        → inside th.pc ≡ true
        → 0 ≤ stamp
        → (not (inside th.pc) || ltb stamp th.entered) && all_later n ths stamp ≡ true
        → stamp < th.entered
    last th p z h = ground arith

-- A retired address is a node that the head has passed.
retired_node :
    (G : Ghost) (q : Queue) (a : ℕ) {stamp : ℕ} (r : Role)
    → G.role a ≡ r
    → Stored G q a r
    → q.retired a ≡ some stamp
    → (k : ℕ) × (G.role a ≡ node k) × (a ≡ get_ptr (G.log k)) × (k ≤ G.last) × (k < G.front)
retired_node G q a free e s r = cc
retired_node G q a (owned t) e s r = cc (s.3)
retired_node G q a (node k) e s r = (k, e, s.3, s.4, s.8 (λ z. cc))

module _ {G : Ghost} {s : System} (v : Inv G s) (a other : ℕ) {stamp : ℕ}
    (was : s.queue.retired a ≡ some stamp) (later : all_later s.count s.threads stamp ≡ true) where
  where_it_is :
      (k : ℕ) × (G.role a ≡ node k) × (a ≡ get_ptr (G.log k)) × (k ≤ G.last) × (k < G.front)
  where_it_is = retired_node G s.queue a (G.role a) refl (v.memory.stored a) was

  abbrev freed : Ghost
  freed = record G { role = set G.role a free }

  abbrev freed_queue : Queue
  freed_queue = release_node true a other s.queue

  kept : (b : ℕ) {r : Role} → G.role b ≡ r → r ≢ node where_it_is.0 → freed.role b ≡ r
  kept b e n = set_ne G.role a free (roles_apart G.role e where_it_is.1 n) ∙ e

  freed-Stored : (b : ℕ) → Stored freed freed_queue b (freed.role b)
  unfolding release_node
  freed-Stored b = elim (Bool-cases (b == a)) [
    | inl e ↦
        subst (Stored freed freed_queue b) (sym (if_true (b == a) free (G.role b) e))
          (if_true (b == a) none (s.queue.retired b) e)
    | inr e ↦ subst (Stored freed freed_queue b) (sym (if_false (b == a) free (G.role b) e)) (
        Stored-keep G s.queue freed freed_queue b (G.role b) (λ k. refl) (λ k. refl) refl
          (omega arith) (if_false _ _ _ e) refl (if_false _ _ _ e) (if_false _ _ _ e)
          (if_false _ _ _ e) (v.memory.stored b))
  ]

  freed-Memory : Memory freed freed_queue
  unfolding release_node
  freed-Memory = record {
    head_at = v.memory.head_at;
    tail_at = v.memory.tail_at;
    front_behind = v.memory.front_behind;
    behind_last = v.memory.behind_last;
    linked = λ k from to.
        kept _ (v.memory.linked k from to)
          (λ e. let same = node_injective e in absurd (omega (arith, where_it_is.4)));
    stored = freed-Stored;
    replayed = v.memory.replayed;
  }

  -- A thread that is inside entered after the node was retired, so it can not read it.
  unread :
      (t k : ℕ)
      → inside (s.threads t).pc ≡ true
      → G.since t ≤ k
      → G.role (get_ptr (G.log k)) ≡ node k
      → k ≢ where_it_is.0
  unread t k p from e same =
      let from' : G.since t ≤ where_it_is.0 = omega arith in
      let stamped =
        (v.locals t).stamped where_it_is.0 stamp p from' where_it_is.3
          (subst (λ b. s.queue.retired b ≡ some stamp) where_it_is.2 was) in
      elim (Bool-cases (ltb t s.count)) [
        | inl lt ↦
            absurd (omega (arith, all_later-lt s.count s.threads stamp t later (ground arith) p))
        | inr ge ↦ let gone = ap inside (v.others_idle t (ground arith)) in cc
      ]

  freed-Later : (t : ℕ) → Later G s.queue freed freed_queue t (inside (s.threads t).pc)
  unfolding release_node
  freed-Later t = record {
    log_same = λ k h. refl;
    vals_same = λ k h. refl;
    front_up = omega arith;
    behind_up = omega arith;
    last_up = omega arith;
    clock_up = omega arith;
    since_same = refl;
    popper_same = λ k h. refl;
    mine_same = λ b h. (
      kept b h (λ e. cc),
      refl,
      set_ne s.queue.next a other (roles_apart G.role h where_it_is.1 (λ e. cc)),
    );
    unretired = λ k p h r. elim (Bool-cases (get_ptr (G.log k) == a)) [
      | inl e ↦ if_true _ _ _ e
      | inr e ↦ if_false (get_ptr (G.log k) == a) none (s.queue.retired (get_ptr (G.log k))) e ∙ r
    ];
    node_same = λ k p from to h. kept _ h (λ e. unread t k p from h (node_injective e));
    node_new = λ k lt to. absurd (omega arith);
    stamp_old = λ b stamp' h. elim (Bool-cases (b == a)) [
      | inl e ↦ let now = sym (if_true (b == a) none (s.queue.retired b) e) ∙ h in cc
      | inr e ↦ inl (sym (if_false (b == a) none (s.queue.retired b) e) ∙ h)
    ];
  }

  freed-Inv : Inv freed (record s { queue = freed_queue })
  freed-Inv = record {
    memory = freed-Memory;
    locals = λ t. Local-Later (freed-Later t) (s.threads t) refl (v.locals t);
    others_idle = v.others_idle;
  }

pub release-Inv :
    (G : Ghost) (s : System) (a other : ℕ) (o : Option ℕ) (b : Bool)
    → Inv G s
    → s.queue.retired a ≡ o
    → can_release o s ≡ b
    → (G' : Ghost) × Inv G' (record s { queue = release_node b a other s.queue })
unfolding can_release
release-Inv G s a other none true v e c = cc
release-Inv G s a other (some stamp) true v e c = (freed v a other e c, freed-Inv v a other e c)
release-Inv G s a other o false v e c = unfold release_node in (G, v)
