-- ===== src/EpochBasedReclamation/Advances.antt =====
-- A step of the maintainer keeps the invariant.
use rock_coro.Prelude.{
  ℕ, zero, suc, ◌+◌, ◌≤◌, ◌<◌, ◌≡◌, refl, ap, sym, ◌∙◌, subst, Bool, true, false, [], ltb,
  if◌then◌else◌, arith, inl, inr,
}
use rock_coro.EpochBasedReclamation.{
  Status, epoch_status, same, Pc, outside, inside, aborted, entering, read_global, swap, retiring,
  stamping, exiting, leave, collect, release, Thread, Advance, idle, bump, load_current, load_count,
  scan, scan_swap, failed, Epochs, advance_swap, store_gc, next_round, advance_at, new,
}
use rock_coro.EpochBasedReclamation.Local.{FitsAt, Fits, PendingLate, Late, same_lem}
use rock_coro.EpochBasedReclamation.Invariant.{
  AdvanceFits, Inv, Fits-mono, set_thread-others, set_thread-all, set_thread-reset,
  PendingLate-intro,
}

-- The maintainer makes a thread that is not active look as if it had left the current epoch.
refreshed-Fits :
    (g gc : ℕ) (t : Thread)
    → t.status.active ≡ false
    → Fits g gc t
    → Fits g gc (record t { status = epoch_status g false })
refreshed-Fits g gc t off f = (omega arith, go t.pc f.1)
  where
    go : (pc : Pc) → FitsAt g gc pc t → FitsAt g gc pc (record t { status = epoch_status g false })
    go outside h = refl
    go inside h = cc
    go aborted h = h
    go entering h = refl
    go (read_global old) h = (refl, h.1, h.2)
    go (swap old new) h = (refl, h.1, h.2, h.3, h.4)
    go (retiring x) h = cc
    go (stamping x) h = cc
    go exiting h = cc
    go (leave old) h = absurd (cc (h.0, off))
    go collect h = refl
    go (release cur) h = (refl, h.1)

refreshed-Late :
    (m g gc : ℕ) (t : Thread)
    → m ≤ g
    → FitsAt g gc t.pc t
    → Late m (record t { status = epoch_status g false })
refreshed-Late m g gc t p f = (
  λ a. cc,
  PendingLate-intro m (epoch_status g false) t.pc λ old new e q.
      let h = subst (λ pc. FitsAt g gc pc t) e f in
      omega (arith, ap (λ (o : Status). o.epoch) q, h.2),
)

Late-own : (m g gc : ℕ) (t : Thread) → m ≤ t.status.epoch → FitsAt g gc t.pc t → Late m t
Late-own m g gc t p f = (
  λ a. p,
  PendingLate-intro m t.status t.pc λ old new e q.
      let h = subst (λ pc. FitsAt g gc pc t) e f in
      omega (arith, ap (λ (o : Status). o.epoch) q, h.2),
)

Late-weaken : (m k : ℕ) (t : Thread) → m ≤ k → Late k t → Late m t
Late-weaken m k t p l = (
  λ a. omega (arith, l.0 a),
  PendingLate-intro m t.status t.pc
      λ old new e q. let h = subst (PendingLate k t.status) e l.1 in omega (arith, h q),
)

-- A compare-exchange of the maintainer that fails on an unchanged epoch met an active thread.
swap_failed :
    (a old : Status)
    → same a old ≡ false
    → old.active ≡ false
    → a.epoch ≡ old.epoch
    → a.active ≡ true
swap_failed a old e off q = ground arith

advance_swap-Inv :
    (s : Epochs) (min cur n : ℕ) (old : Status) (b : Bool)
    → same (s.threads n).status old ≡ b
    → AdvanceFits (scan_swap min cur n old) s
    → Inv s
    → Inv (advance_swap b min cur n s)
unfolding advance_swap
advance_swap-Inv s min cur n old true e (a, c, d, l, off, moved) v =
    let t = s.threads n in
    let t' : Thread = record t { status = epoch_status s.global_epoch false } in
    let eq : t.status ≡ old = same_lem t.status old e in
    let idle_thread : t.status.active ≡ false = ap (λ (o : Status). o.active) eq ∙ off in
    let late = λ (m : ℕ) (p : m ≤ s.global_epoch).
      refreshed-Late m s.global_epoch s.gc_epoch t p (v.fits n).1 in
    rw d record {
      gc_lt = v.gc_lt;
      fits =
          set_thread-all (λ j. Fits s.global_epoch s.gc_epoch) s.threads n t'
            (refreshed-Fits s.global_epoch s.gc_epoch t idle_thread (v.fits n)) v.fits;
      late =
          set_thread-all (λ j. Late (suc s.gc_epoch)) s.threads n t'
            (late (suc s.gc_epoch) (omega arith)) v.late;
      fresh =
          set_thread-all (λ j u. s.count ≤ j → (u.pc ≡ outside) × (u.retire_list ≡ [])) s.threads n
            t' (v.fresh n) v.fresh;
      advance = (
        a,
        c,
        refl,
        set_thread-others (λ j u. n ≤ j → Late min u) s.threads n t' (λ p. late min (omega arith))
            (λ j k p. l j (omega (arith, k))),
      );
    }
advance_swap-Inv s min cur n old false e (a, c, d, l, off, moved) v =
    let t = s.threads n in
    let least = if ltb t.status.epoch min then t.status.epoch else min in
    let above : s.gc_epoch < t.status.epoch = elim moved [
      | inl q ↦ omega (arith, (v.late n).0 (swap_failed t.status old e off q))
      | inr q ↦ q
    ] in
    record {
      gc_lt = v.gc_lt;
      fits = v.fits;
      late = v.late;
      fresh = v.fresh;
      advance = (
        ground (arith, above),
        ground arith,
        d,
        set_thread-reset (λ j u. n ≤ j → Late least u) s.threads n
            (λ p. Late-own least s.global_epoch s.gc_epoch t (ground arith) (v.fits n).1)
            (λ j k p. Late-weaken least min (s.threads j) (ground arith) (l j (omega (arith, k)))),
      );
    }

store_gc-Inv :
    (s : Epochs) (min cur : ℕ) → AdvanceFits (scan min cur 0) s → Inv s → Inv (store_gc min s)
unfolding store_gc
store_gc-Inv s zero cur a v = absurd (omega (arith, a.0))
store_gc-Inv s (suc n) cur a v = record {
  gc_lt = omega (arith, a.1);
  fits = λ i.
      Fits-mono s.global_epoch s.global_epoch s.gc_epoch n (s.threads i) (omega arith)
        (omega (arith, a.0)) (v.fits i);
  late = λ i. a.3 i (omega arith);
  fresh = v.fresh;
  advance = tt;
}

unregistered-Late : (m : ℕ) (s : Epochs) (i : ℕ) → Inv s → s.count ≤ i → Late m (s.threads i)
unregistered-Late m s i v p =
    let t = s.threads i in
    let e = (v.fresh i p).0 in
    let off : t.status.active ≡ false =
      subst (λ pc. FitsAt s.global_epoch s.gc_epoch pc t) e (v.fits i).1 in
    (λ a. cc, subst (PendingLate m t.status) (sym e) tt)

next_round-Inv : (b : Bool) (s : Epochs) → Inv s → Inv (next_round b s)
unfolding next_round
next_round-Inv true s v = record {
  gc_lt = v.gc_lt;
  fits = v.fits;
  late = v.late;
  fresh = v.fresh;
  advance = refl;
}
next_round-Inv false s v = v

pub advance_at-Inv : (a : Advance) (s : Epochs) → AdvanceFits a s → Inv s → Inv (advance_at a s)
unfolding advance_at
advance_at-Inv idle s h v = next_round-Inv s.is_running s v
advance_at-Inv (bump min) s h v = record {
  gc_lt = omega (arith, v.gc_lt);
  fits = λ i.
      Fits-mono s.global_epoch (s.global_epoch + 1) s.gc_epoch s.gc_epoch (s.threads i)
        (omega arith) (omega arith) (v.fits i);
  late = v.late;
  fresh = v.fresh;
  advance = (omega (arith, v.gc_lt, h), omega (arith, h));
}
advance_at-Inv (load_current min) s h v = record {
  gc_lt = v.gc_lt;
  fits = v.fits;
  late = v.late;
  fresh = v.fresh;
  advance = (h.0, h.1, refl);
}
advance_at-Inv (load_count min cur) s h v = record {
  gc_lt = v.gc_lt;
  fits = v.fits;
  late = v.late;
  fresh = v.fresh;
  advance = (h.0, h.1, h.2, λ i p. unregistered-Late min s i v p);
}
advance_at-Inv (scan min cur zero) s h v = store_gc-Inv s min cur h v
advance_at-Inv (scan min cur (suc n)) s h v = record {
  gc_lt = v.gc_lt;
  fits = v.fits;
  late = v.late;
  fresh = v.fresh;
  advance = (h.0, h.1, h.2, λ i p. h.3 i (omega arith), refl, inl refl);
}
advance_at-Inv (scan_swap min cur n old) s h v =
    advance_swap-Inv s min cur n old (same (s.threads n).status old) refl h v
advance_at-Inv failed s h v = absurd h
