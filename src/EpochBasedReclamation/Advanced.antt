-- ===== src/EpochBasedReclamation/Advanced.antt =====
-- What a step of the maintainer leaves alone.
use rock_coro.Prelude.{
  ℕ, zero, suc, ◌≤◌, ◌≡◌, refl, ap, sym, inl, inr, Bool, true, false, ◌==◌, arith, Bool-cases,
}
use rock_coro.EpochBasedReclamation.{
  same, Thread, Advance, idle, bump, load_current, load_count, scan, scan_swap, failed, Epochs,
  advance_swap, store_gc, next_round, advance_at,
}

-- What a step of the maintainer does to a thread `j` and to the shared state.
pub record Advanced (u u' : Epochs) (j : ℕ) : Type 0 where
  pub global_up : u.global_epoch ≤ u'.global_epoch
  pub same_log : u'.released ≡ u.released
  pub same_list : (u'.threads j).retire_list ≡ (u.threads j).retire_list
  pub same_epoch :
      (u'.threads j).status.active ≡ true → (u'.threads j).status.epoch ≡ (u.threads j).status.epoch

unchanged :
    (u u' : Epochs) (j : ℕ)
    → u.global_epoch ≤ u'.global_epoch
    → u'.released ≡ u.released
    → u'.threads j ≡ u.threads j
    → Advanced u u' j
unchanged u u' j p q e = record {
  global_up = p;
  same_log = q;
  same_list = ap (λ (t : Thread). t.retire_list) e;
  same_epoch = λ a. ap (λ (t : Thread). t.status.epoch) e;
}

pub advance_at-Advanced : (a : Advance) (u : Epochs) (j : ℕ) → Advanced u (advance_at a u) j
unfolding advance_at
advance_at-Advanced (bump min) u j = unchanged u (advance_at (bump min) u) j (omega arith) refl refl
advance_at-Advanced (scan min cur zero) u j = go min
  where
    go : (m : ℕ) → Advanced u (store_gc m u) j
    go zero = unchanged u (store_gc zero u) j (omega arith) refl refl
    go (suc n) = unchanged u (store_gc (suc n) u) j (omega arith) refl refl
advance_at-Advanced (scan_swap min cur i old) u j = go (same (u.threads i).status old)
  where
    go : (b : Bool) → Advanced u (advance_swap b min cur i u) j
    go true = elim (Bool-cases (j == i)) [
      | inl e ↦
          let same_index : j ≡ i = ground arith in
          record {
            global_up = omega arith;
            same_log = refl;
            same_list = rw e (ap (λ k. (u.threads k).retire_list) (sym same_index));
            same_epoch = rw e (λ a. cc);
          }
      | inr e ↦ record {
        global_up = omega arith;
        same_log = refl;
        same_list = rw e refl;
        same_epoch = rw e (λ a. refl);
      }
    ]
    go false = unchanged u (advance_swap false min cur i u) j (omega arith) refl refl
advance_at-Advanced idle u j = go u.is_running
  where
    go : (b : Bool) → Advanced u (next_round b u) j
    go true = unchanged u (next_round true u) j (omega arith) refl refl
    go false = unchanged u u j (omega arith) refl refl
advance_at-Advanced (load_current min) u j =
    unchanged u (advance_at (load_current min) u) j (omega arith) refl refl
advance_at-Advanced (load_count min cur) u j =
    unchanged u (advance_at (load_count min cur) u) j (omega arith) refl refl
advance_at-Advanced (scan min cur (suc i)) u j =
    unchanged u (advance_at (scan min cur (suc i)) u) j (omega arith) refl refl
advance_at-Advanced failed u j = unchanged u (u) j (omega arith) refl refl
