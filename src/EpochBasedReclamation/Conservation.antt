-- ===== src/EpochBasedReclamation/Conservation.antt =====
-- What is retired is released once, and by `destroy` at the latest.
use rock_coro.Prelude.{
  ℕ, zero, suc, ◌+◌, ◌≤◌, ◌<◌, ◌≡◌, refl, ap, inl, inr, false, List, [], ◌∷◌, ◌++◌, ltb, ◌==◌,
  arith, if◌then◌else◌, Bool-cases,
}
use rock_coro.EpochBasedReclamation.{
  max_threads, RetireRecord, entering, aborted, Thread, Call, thread_at, Epochs, set_thread,
  advance_at, Event, act, register, maintain, act_step, register_step, epochs_step, new, run_events,
  release_lists, destroy,
}
use rock_coro.EpochBasedReclamation.Invariant.{Inv, new-Inv, set_thread-others, set_thread-all}
use rock_coro.EpochBasedReclamation.Runs.{
  run_events-count, epochs_step-Inv, run_events-Inv, advance_at-count,
}
use rock_coro.EpochBasedReclamation.Effects.{count, count-append, stamped, thread_at_lem}
use rock_coro.EpochBasedReclamation.Advanced.{advance_at-Advanced}

-- How often a record is in the retire lists of the first `n` threads.
abbrev pub listed : RetireRecord → ℕ → (ℕ → Thread) → ℕ
listed r zero ts = 0
listed r (suc n) ts = listed r n ts + count r (ts n).retire_list

-- What a run retires, in order.
abbrev pub retired_by : Event → Epochs → List RetireRecord
retired_by (act i c) s = if ltb i s.count then stamped s.global_epoch (s.threads i).pc else []
retired_by register s = []
retired_by maintain s = []

abbrev pub retired : List Event → Epochs → List RetireRecord
retired [] s = []
retired (e ∷ es) s = retired_by e s ++ retired es (epochs_step e s)

listed-same :
    (r : RetireRecord) (n : ℕ) (ts us : ℕ → Thread)
    → ((j : ℕ) → (us j).retire_list ≡ (ts j).retire_list)
    → listed r n us ≡ listed r n ts
listed-same r zero ts us h = refl
listed-same r (suc n) ts us h = omega (arith, listed-same r n ts us h, ap (count r) (h n))

listed-above :
    (r : RetireRecord) (n : ℕ) (ts : ℕ → Thread) (i : ℕ) (t : Thread)
    → n ≤ i
    → listed r n (set_thread ts i t) ≡ listed r n ts
listed-above r zero ts i t h = refl
listed-above r (suc n) ts i t h =
    let e : (n == i) ≡ false = ground arith in
    rw e (ap (λ k. k + count r (ts n).retire_list) (listed-above r n ts i t (omega arith)))

listed-set :
    (r : RetireRecord) (n : ℕ) (ts : ℕ → Thread) (i : ℕ) (t : Thread)
    → i < n
    → listed r n (set_thread ts i t) + count r (ts i).retire_list
      ≡ listed r n ts + count r t.retire_list
listed-set r zero ts i t h = elim h [ ]
listed-set r (suc n) ts i t h = elim (Bool-cases (n == i)) [
  | inl e ↦
      let same_index : n ≡ i = ground arith in
      let above = listed-above r n ts i t (omega arith) in
      rw e (omega (arith, above, ap (λ k. count r (ts k).retire_list) same_index))
  | inr e ↦ let below : i < n = ground arith in rw e (omega (arith, listed-set r n ts i t below))
]

listed-none :
    (r : RetireRecord) (n : ℕ) (ts : ℕ → Thread)
    → ((j : ℕ) → (ts j).retire_list ≡ [])
    → listed r n ts ≡ 0
listed-none r zero ts h = refl
listed-none r (suc n) ts h = omega (arith, listed-none r n ts h, ap (count r) (h n))

abbrev all_records : RetireRecord → Epochs → ℕ
all_records r s = count r s.released + listed r s.count s.threads

act_step-all :
    (r : RetireRecord) (i : ℕ) (c : Call) (s : Epochs)
    → Inv s
    → all_records r (act_step i c s) ≡ all_records r s + count r (retired_by (act i c) s)
unfolding act_step
act_step-all r i c s v =
    let t = s.threads i in
    let (t', rs) = thread_at t.pc c s.global_epoch s.gc_epoch t in
    let kept = (thread_at_lem s.global_epoch s.gc_epoch t t.pc c (v.fits i).1).3 r in
    elim (Bool-cases (ltb i s.count)) [
      | inl e ↦
          let lt : i < s.count = ground arith in
          rw e (
            omega
              (arith, count-append r s.released rs, listed-set r s.count s.threads i t' lt, kept))
      | inr e ↦ rw e (omega arith)
    ]

register_step-all :
    (r : RetireRecord) (s : Epochs) → Inv s → all_records r (register_step s) ≡ all_records r s
unfolding register_step
register_step-all r s v =
    let t : Thread = record (s.threads s.count) {
      pc = if ltb s.count max_threads then entering else aborted;
    } in
    let same = listed-same r (suc s.count) s.threads (set_thread s.threads s.count t) (
      set_thread-all (λ j u. u.retire_list ≡ (s.threads j).retire_list) s.threads s.count t refl
        (λ j. refl)) in
    let one_more : s.count + 1 ≡ suc s.count = omega arith in
    rw one_more (omega (arith, same, ap (count r) (v.fresh s.count (omega arith)).1))

epochs_step-all :
    (r : RetireRecord) (e : Event) (s : Epochs)
    → Inv s
    → all_records r (epochs_step e s) ≡ all_records r s + count r (retired_by e s)
unfolding epochs_step
epochs_step-all r (act i c) s v = act_step-all r i c s v
epochs_step-all r register s v = omega (arith, register_step-all r s v)
epochs_step-all r maintain s v =
    let s' = advance_at s.maintainer s in
    let log = ap (count r) (advance_at-Advanced s.maintainer s 0).same_log in
    let lists =
      listed-same r s.count s.threads s'.threads
        (λ j. (advance_at-Advanced s.maintainer s j).same_list) in
    let threads = ap (λ n. listed r n s'.threads) (advance_at-count s.maintainer s) in
    omega (arith, log, lists, threads)

run_events-all :
    (r : RetireRecord) (es : List Event) (s : Epochs)
    → (run_events es s).count ≤ max_threads
    → Inv s
    → all_records r (run_events es s) ≡ all_records r s + count r (retired es s)
unfolding run_events
run_events-all r [] s few v = omega arith
run_events-all r (e ∷ es) s few v =
    let s' = epochs_step e s in
    let v' : Inv s' = epochs_step-Inv e s (omega (arith, few, run_events-count es s')) v in
    omega (
      arith,
      run_events-all r es s' few v',
      epochs_step-all r e s v,
      count-append r (retired_by e s) (retired es s'),
    )

-- The loop of `destroy` from thread `i` on, below which all lists are empty.
release_lists-all :
    (r : RetireRecord) (rounds i : ℕ) (s : Epochs)
    → i + rounds ≡ s.count
    → ((j : ℕ) → j < i → (s.threads j).retire_list ≡ [])
    → ((j : ℕ) → s.count ≤ j → (s.threads j).retire_list ≡ [])
    → ((j : ℕ) → ((release_lists rounds i s).threads j).retire_list ≡ [])
      × (count r (release_lists rounds i s).released ≡ all_records r s)
unfolding release_lists
release_lists-all r zero i s e low high =
    let empty : (j : ℕ) → (s.threads j).retire_list ≡ [] = λ j. elim (Bool-cases (ltb j i)) [
      | inl k ↦ low j (ground arith)
      | inr k ↦ high j (ground (arith, e))
    ] in
    (empty, omega (arith, listed-none r s.count s.threads empty))
release_lists-all r (suc rounds) i s e low high =
    let t = s.threads i in
    let t' : Thread = record t { retire_list = [] } in
    let s' : Epochs = record s {
      threads = set_thread s.threads i t';
      released = s.released ++ t.retire_list;
    } in
    let rest =
      release_lists-all r rounds (i + 1) s' (omega (arith, e))
        (set_thread-others (λ j u. j < i + 1 → u.retire_list ≡ []) s.threads i t' (λ h. refl)
          (λ j n h. low j (omega (arith, n, h))))
        (set_thread-all (λ j u. s.count ≤ j → u.retire_list ≡ []) s.threads i t' (λ h. refl)
          high) in
    (
      rest.0,
      omega (
        arith,
        rest.1,
        listed-set r s.count s.threads i t' (omega (arith, e)),
        count-append r s.released t.retire_list,
      ),
    )

new_all : (r : RetireRecord) → all_records r new ≡ 0
unfolding new
new_all r = refl

-- After any interleaving in which at most 1024 threads register, the releases of a record and its
-- places in the retire lists are together as many as its retirements; destroy leaves every retire
-- list empty, and then the releases are as many as the retirements.
pub all_retired_are_released :
    (es : List Event) (r : RetireRecord) (i : ℕ)
    → (run_events es new).count ≤ max_threads
    → (count r (run_events es new).released
          + listed r (run_events es new).count (run_events es new).threads
        ≡ count r (retired es new))
      × (count r (destroy (run_events es new)).released ≡ count r (retired es new))
      × (((destroy (run_events es new)).threads i).retire_list ≡ [])
unfolding destroy
all_retired_are_released es r i few =
    let s = run_events es new in
    let v : Inv s = run_events-Inv es new few new-Inv in
    let now = run_events-all r es new few new-Inv in
    let start : all_records r new ≡ 0 = new_all r in
    let gone =
      release_lists-all r s.count 0 s (omega arith) (λ j h. absurd (omega arith))
        (λ j h. (v.fresh j h).1) in
    (omega (arith, now, start), omega (arith, now, start, gone.1), gone.0 i)
