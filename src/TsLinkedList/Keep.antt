-- ===== src/TsLinkedList/Keep.antt =====
-- What a step of a thread has to establish, and the parts of it that many steps share.
use rock_coro.Prelude.{
  ℕ, suc, ◌≤◌, ◌≡◌, ◌≢◌, refl, ◌∙◌, sym, subst, ap, ◌⊎◌, inl, inr, Bool, true, none, some, arith,
  ◌==◌, ==_iff, ==_refl, Bool-cases, if_true, if_false,
}
use rock_coro.NodeAllocator.{set}
use rock_coro.TsLinkedList.{Pc, Queue, Thread, inside}
use rock_coro.TsLinkedList.Ghost.{Role, free, owned, node, Ghost, Fits, Stored, Memory, Local}
use rock_coro.TsLinkedList.Later.{Later}
use rock_coro.TaggedPtr.{get_ptr}

module _ {A : Type 0} where
  pub set_self : (f : ℕ → A) (a : ℕ) (v : A) → set f a v a ≡ v
  set_self f a v = if_true (a == a) _ _ (==_refl a)

  pub set_ne : (f : ℕ → A) (a : ℕ) (v : A) {b : ℕ} → b ≢ a → set f a v b ≡ f b
  set_ne f a v {b} n = elim (Bool-cases (b == a)) [
    | inl e ↦ absurd (n ((==_iff b a).0 e))
    | inr e ↦ if_false _ _ _ e
  ]

-- Two addresses with different roles are different.
pub roles_apart :
    (role : ℕ → Role) {a b : ℕ} {r r' : Role} → role a ≡ r → role b ≡ r' → r ≢ r' → a ≢ b
roles_apart role p q n e = n (sym p ∙ ap role e ∙ q)

pub node_injective : {k m : ℕ} → node k ≡ node m → k ≡ m
node_injective e = cc

-- How a step moves the number of the tail and of the last node.
pub record EndsMove (G : Ghost) (q : Queue) (G' : Ghost) (q' : Queue) : Type 0 where
  pub behind_same : q'.tail ≡ q.tail → G'.behind ≡ G.behind
  pub behind_next : q'.tail ≢ q.tail → G'.behind ≡ suc G.behind
  pub last_same : q'.history ≡ q.history → G'.last ≡ G.last

pub no_advance :
    (G : Ghost) (q : Queue) (G' : Ghost) (q' : Queue)
    → q'.tail ≡ q.tail
    → G'.behind ≡ G.behind
    → G'.last ≡ G.last
    → EndsMove G q G' q'
no_advance G q G' q' tail behind last = record {
  behind_same = λ e. behind;
  behind_next = λ n. absurd (n tail);
  last_same = λ e. last;
}

-- The outcome of a step of thread `i`.
pub record Stepped (G : Ghost) (q : Queue) (i : ℕ) (q' : Queue) (th : Thread) : Type 0 where
  pub ghost : Ghost
  pub memory : Memory ghost q'
  pub local : Local ghost q' i th
  pub later : (t : ℕ) (b : Bool) → t ≢ i → Later G q ghost q' t b
  pub advance : EndsMove G q ghost q'

-- What is stored at an address stays when neither memory nor the ghost changes there.
pub Stored-keep :
    (G : Ghost) (q : Queue) (G' : Ghost) (q' : Queue) (a : ℕ) (r : Role)
    → ((k : ℕ) → G'.log k ≡ G.log k)
    → ((k : ℕ) → G'.vals k ≡ G.vals k)
    → G'.last ≡ G.last
    → G.front ≤ G'.front
    → q'.next a ≡ q.next a
    → q'.value a ≡ q.value a
    → q'.live a ≡ q.live a
    → q'.released a ≡ q.released a
    → q'.retired a ≡ q.retired a
    → Stored G q a r
    → Stored G' q' a r
Stored-keep G q G' q' a free logs vals same up n v l r d s = d ∙ s
Stored-keep G q G' q' a (owned t) logs vals same up n v l r d (nz, live, not_released, none_yet) =
    (nz, l ∙ live, r ∙ not_released, d ∙ none_yet)
Stored-keep G q G' q' a (node i) logs vals same up n v l r d
      (nz, live, not_released, at, to, is, mid, end, old) =
    (
      nz,
      l ∙ live,
      r ∙ not_released,
      at ∙ ap get_ptr (sym (logs i)),
      omega arith,
      v ∙ is ∙ sym (vals i),
      λ lt. n ∙ mid (omega arith) ∙ sym (logs (suc i)),
      λ eq. n ∙ end (eq ∙ same),
      λ some_time. let before = old (λ e. some_time (d ∙ e)) in omega arith,
    )

-- A step that leaves the ghost as it is.
pub same_ghost :
    (G : Ghost) (q q' : Queue) (t : ℕ) (b : Bool)
    → q.clock ≤ q'.clock
    → ((a : ℕ) → G.role a ≡ owned t → (q'.value a ≡ q.value a) × (q'.next a ≡ q.next a))
    → ((k : ℕ)
        → G.popper k ≡ t
        → G.role (get_ptr (G.log k)) ≡ node k
        → q.retired (get_ptr (G.log k)) ≡ none
        → q'.retired (get_ptr (G.log k)) ≡ none)
    → ((a stamp : ℕ) → q'.retired a ≡ some stamp → (q.retired a ≡ some stamp) ⊎ (q.clock ≤ stamp))
    → Later G q G q' t b
same_ghost G q q' t b up mine alone old = record {
  log_same = λ k h. refl;
  vals_same = λ k h. refl;
  front_up = omega arith;
  behind_up = omega arith;
  last_up = omega arith;
  clock_up = up;
  since_same = refl;
  popper_same = λ k h. refl;
  mine_same = λ a h. (h, (mine a h).0, (mine a h).1);
  unretired = alone;
  node_same = λ k p from to h. h;
  node_new = λ k lt to. absurd (omega arith);
  stamp_old = old;
}

module _ {G : Ghost} {q : Queue} {i : ℕ} {th : Thread} (m : Memory G q) (l : Local G q i th) where
  -- What is known of the node with number `k`, while it is not released.
  pub stored_node : (k : ℕ) {a : ℕ} → G.role a ≡ node k → Stored G q a (node k)
  stored_node k {a} e = subst (Stored G q a) e (m.stored a)

  pub stored_mine : {a : ℕ} → G.role a ≡ owned i → Stored G q a (owned i)
  stored_mine {a} e = subst (Stored G q a) e (m.stored a)

  -- A step in which the thread only goes on to another place.
  pub stay :
      (pc : Pc)
      → (inside pc ≡ true → inside th.pc ≡ true)
      → Fits G q i pc
      → Stepped G q i q (record th { pc = pc })
  stay pc from f = record {
    ghost = G;
    memory = m;
    local = record {
      entered_by = l.entered_by;
      since_by = λ p. l.since_by (from p);
      held = λ k p. l.held k (from p);
      stamped = λ k stamp p. l.stamped k stamp (from p);
      fits = f;
    };
    advance = no_advance G q G q refl refl refl;
    later = λ t b n.
        same_ghost G q q t b (omega arith) (λ a h. (refl, refl)) (λ k p h r. r)
          (λ a stamp h. inl h);
  }

  -- A step in which nothing happens.
  pub rest : Stepped G q i q th
  rest = record {
    ghost = G;
    memory = m;
    local = l;
    advance = no_advance G q G q refl refl refl;
    later = λ t b n.
        same_ghost G q q t b (omega arith) (λ a h. (refl, refl)) (λ k p h r. r)
          (λ a stamp h. inl h);
  }
