-- ===== src/EpochBasedReclamation/Acts.antt =====
-- A step of a thread keeps the invariant.
use rock_coro.Prelude.{
  ℕ, suc, ◌+◌, ◌≤◌, ◌<◌, ◌≡◌, refl, sym, ◌∙◌, subst, true, false, [], ◌++◌, ltb, ◌==◌, arith,
  Bool-cases, ◌⊎◌, inl, inr,
}
use rock_coro.EpochBasedReclamation.{
  max_threads, outside, entering, Thread, Call, thread_at, Advance, idle, bump, load_current,
  load_count, scan, scan_swap, failed, Epochs, set_thread, act_step, register_step,
}
use rock_coro.EpochBasedReclamation.Local.{FitsAt, Fits, Late, Kept, step-Kept}
use rock_coro.EpochBasedReclamation.Invariant.{AdvanceFits, Inv, set_thread-all}

-- A change of one thread that keeps it late, and moves its epoch only above the gc epoch, is no
-- matter to the maintainer.
advance-set_thread :
    (s s' : Epochs) (i : ℕ) (t : Thread)
    → s'.maintainer ≡ s.maintainer
    → s'.global_epoch ≡ s.global_epoch
    → s'.gc_epoch ≡ s.gc_epoch
    → ((j : ℕ) → s'.threads j ≡ set_thread s.threads i t j)
    → ((m : ℕ) → m ≤ s.global_epoch → Late m (s.threads i) → Late m t)
    → ((t.status.epoch ≡ (s.threads i).status.epoch) ⊎ (s.gc_epoch < t.status.epoch))
    → AdvanceFits s.maintainer s
    → AdvanceFits s.maintainer s'
advance-set_thread s s' i t em eg ec et keep moved = go s.maintainer
  where
    late_of : (m j : ℕ) → m ≤ s.global_epoch → Late m (s.threads j) → Late m (s'.threads j)
    late_of m j h l = subst (Late m) (sym (et j)) (elim (Bool-cases (j == i)) [
      | inl e ↦
          let same_index : j ≡ i = ground arith in
          rw e (keep m h (subst (λ k. Late m (s.threads k)) same_index l))
      | inr e ↦ rw e l
    ])

    moved_of :
        (n e : ℕ)
        → ((s.threads n).status.epoch ≡ e) ⊎ (s.gc_epoch < (s.threads n).status.epoch)
        → ((s'.threads n).status.epoch ≡ e) ⊎ (s.gc_epoch < (s'.threads n).status.epoch)
    moved_of n e h = rw (et n) (elim (Bool-cases (n == i)) [
      | inl y ↦
          let same_index : n ≡ i = ground arith in
          rw y (elim moved [
            | inl k ↦
                elim (subst
                  (λ k.
                    ((s.threads k).status.epoch ≡ e) ⊎ (s.gc_epoch < (s.threads k).status.epoch))
                  same_index h) [ inl l ↦ inl (k ∙ l) | inr l ↦ inr (omega arith) ]
            | inr k ↦ inr k
          ])
      | inr y ↦ rw y h
    ])

    go : (a : Advance) → AdvanceFits a s → AdvanceFits a s'
    go idle h = h
    go (bump min) h = h ∙ sym eg
    go (load_current min) h = (omega arith, omega arith)
    go (load_count min cur) h = (omega arith, omega arith, h.2 ∙ sym eg)
    go (scan min cur n) h =
        (omega arith, omega arith, h.2 ∙ sym eg, λ j p. late_of min j (omega arith) (h.3 j p))
    go (scan_swap min cur n old) h = (
      omega arith,
      omega arith,
      h.2 ∙ sym eg,
      λ j p. late_of min j (omega arith) (h.3 j p),
      h.4,
      elim (moved_of n old.epoch h.5) [ inl k ↦ inl k | inr k ↦ inr (omega arith) ],
    )
    go failed h = h

pub act_step-Inv : (i : ℕ) (c : Call) (s : Epochs) → Inv s → Inv (act_step i c s)
unfolding act_step
act_step-Inv i c s v = elim (Bool-cases (ltb i s.count)) [
  | inr e ↦ rw e v
  | inl e ↦
      let t = s.threads i in
      let (t', rs) = thread_at t.pc c s.global_epoch s.gc_epoch t in
      let kept : (m : ℕ)
          → m ≤ s.global_epoch
          → Late m t
          → Kept m s.global_epoch s.gc_epoch t.status.epoch t' =
        λ m p l.
          step-Kept m s.global_epoch s.gc_epoch t (v.fits i).0 p l.0 t.pc c refl (v.fits i).1 l.1 in
      let (f, l, moved) = kept (suc s.gc_epoch) (omega (arith, v.gc_lt)) (v.late i) in
      let s' : Epochs = record s {
        threads = set_thread s.threads i t';
        released = s.released ++ rs;
      } in
      rw e record {
        gc_lt = v.gc_lt;
        fits = set_thread-all (λ j. Fits s.global_epoch s.gc_epoch) s.threads i t' f v.fits;
        late = set_thread-all (λ j. Late (suc s.gc_epoch)) s.threads i t' l v.late;
        fresh =
            set_thread-all (λ j u. s.count ≤ j → (u.pc ≡ outside) × (u.retire_list ≡ [])) s.threads
              i t' (λ h. absurd (ground arith)) v.fresh;
        advance =
            advance-set_thread s s' i t' refl refl refl (λ j. refl) (λ m p k. (kept m p k).1) moved
              v.advance;
      }
]

pub register_step-Inv : (s : Epochs) → s.count < max_threads → Inv s → Inv (register_step s)
unfolding register_step
register_step-Inv s few v =
    let t = s.threads s.count in
    let in_room : ltb s.count max_threads ≡ true = ground arith in
    let off : t.status.active ≡ false =
      subst (λ pc. FitsAt s.global_epoch s.gc_epoch pc t) (v.fresh s.count (omega arith)).0
        (v.fits s.count).1 in
    let t' : Thread = record t { pc = entering } in
    let s' : Epochs = record s { count = s.count + 1; threads = set_thread s.threads s.count t' } in
    rw in_room record {
      gc_lt = v.gc_lt;
      fits =
          set_thread-all (λ j. Fits s.global_epoch s.gc_epoch) s.threads s.count t'
            ((v.fits s.count).0, off) v.fits;
      late =
          set_thread-all (λ j. Late (suc s.gc_epoch)) s.threads s.count t' ((v.late s.count).0, tt)
            v.late;
      fresh =
          set_thread-all (λ j u. s.count + 1 ≤ j → (u.pc ≡ outside) × (u.retire_list ≡ []))
            s.threads s.count t' (λ h. absurd (omega arith)) (λ j h. v.fresh j (omega arith));
      advance =
          advance-set_thread s s' s.count t' refl refl refl (λ j. refl) (λ m p k. (k.0, tt))
            (inl refl) v.advance;
    }
