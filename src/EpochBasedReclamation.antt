-- ===== src/EpochBasedReclamation.antt =====
-- src/memory/epoch_based_reclamation.h and .cpp: threads that enter and exit epochs, retire nodes and
-- release them, and the maintainer that advances the epoch. A thread is named by the index that
-- `init_thread_epoch` gives it. Threads interleave: a step is one access to what they share, and what
-- it does to the thread's own data. Memory is taken as sequentially consistent.
pub mod Local
pub mod Invariant
pub mod Acts
pub mod Advances
pub mod Effects
pub mod Runs
pub mod Advanced
pub mod Safety
pub mod Conservation
mod Tests
use rock_coro.Prelude.{
  ℕ, zero, suc, ◌+◌, Bool, true, false, ◌&&◌, List, [], ◌∷◌, ◌++◌, ltb, leb, ◌==◌, if◌then◌else◌,
}

abbrev pub max_threads : ℕ
max_threads = 1024

-- `epoch_status_`: the upper bit, and the 63 bits below it. An epoch lasts 20 ms, so it does not
-- reach 2 ^ 63.
pub record Status : Type 0 where
  pub active : Bool
  pub epoch : ℕ

-- GET_EPOCH_STATUS
abbrev pub epoch_status : ℕ → Bool → Status
epoch_status e a = record { active = a; epoch = e }

abbrev pub bool_eq : Bool → Bool → Bool
bool_eq true b = b
bool_eq false true = false
bool_eq false false = true

-- The comparison of a compare-exchange, which sees the whole word.
abbrev pub same : Status → Status → Bool
same a b = bool_eq a.active b.active && (a.epoch == b.epoch)

pub record RetireRecord : Type 0 where
  pub ptr : ℕ
  pub retire_epoch : ℕ

-- Where a thread stands: outside of an epoch or inside it, or before an access in `enter_epoch`, in
-- `retire`, or in `exit_epoch`; `aborted` is a failed assert.
pub data Pc : Type 0 where
  outside inside aborted : Pc
  entering : Pc
  read_global : Status → Pc
  swap : Status → Status → Pc
  retiring stamping : ℕ → Pc
  exiting : Pc
  leave : Status → Pc
  collect : Pc
  release : ℕ → Pc

-- A `ThreadEpoch` and its thread.
pub record Thread : Type 0 where
  pub status : Status
  pub retire_list : List RetireRecord
  pub pc : Pc

-- What a thread does next, where it has a choice; a weak compare-exchange may fail with no reason.
pub data Call : Type 0 where
  go enter exit fail : Call
  retire : ℕ → Call

pub enter_load : Bool → Thread → Thread
enter_load true t = record t { pc = aborted }
enter_load false t = record t { pc = read_global t.status }

pub enter_swap : Bool → Status → Thread → Thread
enter_swap true new t = record t { status = new; pc = inside }
enter_swap false new t = record t { pc = read_global t.status }

pub retire_check : Bool → ℕ → Thread → Thread
retire_check true p t = record t { pc = stamping p }
retire_check false p t = record t { pc = aborted }

pub exit_load : Bool → Thread → Thread
exit_load true t = record t { pc = leave t.status }
exit_load false t = record t { pc = aborted }

pub exit_swap : Bool → Status → Thread → Thread
exit_swap true old t = record t { status = epoch_status old.epoch false; pc = collect }
exit_swap false old t = record t { pc = leave t.status }

-- A round of the loop of `exit_epoch`, with the record that it releases.
pub release_front : ℕ → List RetireRecord → Thread → Thread × List RetireRecord
release_front cur [] t = (record t { pc = outside }, [])
release_front cur (r ∷ rs) t =
    if leb r.retire_epoch cur
    then (record t { retire_list = rs }, r ∷ [])
    else (record t { pc = outside }, [])

-- A step of a thread under the global epoch and the gc epoch.
pub thread_at : Pc → Call → ℕ → ℕ → Thread → Thread × List RetireRecord
unfolding enter_load enter_swap retire_check exit_load exit_swap release_front
thread_at outside enter g gc t = (record t { pc = entering }, [])
thread_at outside c g gc t = (t, [])
thread_at entering c g gc t = (enter_load t.status.active t, [])
thread_at (read_global old) c g gc t = (record t { pc = swap old (epoch_status g true) }, [])
thread_at (swap old new) fail g gc t = (enter_swap false new t, [])
thread_at (swap old new) c g gc t = (enter_swap (same t.status old) new t, [])
thread_at inside (retire p) g gc t = (record t { pc = retiring p }, [])
thread_at inside exit g gc t = (record t { pc = exiting }, [])
thread_at inside c g gc t = (t, [])
thread_at (retiring p) c g gc t = (retire_check t.status.active p t, [])
thread_at (stamping p) c g gc t = (
  record t {
    retire_list = t.retire_list ++ (record { ptr = p; retire_epoch = g } ∷ []);
    pc = inside;
  },
  [],
)
thread_at exiting c g gc t = (exit_load t.status.active t, [])
thread_at (leave old) fail g gc t = (exit_swap false old t, [])
thread_at (leave old) c g gc t = (exit_swap (same t.status old) old t, [])
thread_at collect c g gc t = (record t { pc = release gc }, [])
thread_at (release cur) c g gc t = release_front cur t.retire_list t
thread_at aborted c g gc t = (t, [])

-- Where the maintainer stands in `advance_epoch`, with its `min_epoch` and `cur_glb_epoch`; `scan`
-- has the number of threads that are left.
pub data Advance : Type 0 where
  idle : Advance
  bump load_current : ℕ → Advance
  load_count : ℕ → ℕ → Advance
  scan : ℕ → ℕ → ℕ → Advance
  scan_swap : ℕ → ℕ → ℕ → Status → Advance
  failed : Advance

-- The shared state, the threads, and the records released so far, in order.
pub record Epochs : Type 0 where
  pub global_epoch : ℕ
  pub gc_epoch : ℕ
  pub count : ℕ
  pub threads : ℕ → Thread
  pub maintainer : Advance
  pub is_running : Bool
  pub released : List RetireRecord

abbrev pub set_thread : (ℕ → Thread) → ℕ → Thread → ℕ → Thread
set_thread ts i t j = if j == i then t else ts j

-- The compare-exchange of `advance_epoch` on thread `i`.
pub advance_swap : Bool → ℕ → ℕ → ℕ → Epochs → Epochs
advance_swap true min cur i s = record s {
  threads = set_thread s.threads i (record (s.threads i) { status = epoch_status cur false });
  maintainer = scan min cur i;
}
advance_swap false min cur i s =
    let old = (s.threads i).status.epoch in
    record s { maintainer = scan (if ltb old min then old else min) cur i }

-- The end of `advance_epoch`, with its assert.
pub store_gc : ℕ → Epochs → Epochs
store_gc zero s = record s { maintainer = failed }
store_gc (suc n) s = record s { gc_epoch = n; maintainer = idle }

-- The loop of `epoch_maintainer`
pub next_round : Bool → Epochs → Epochs
next_round true s = record s { maintainer = bump s.global_epoch }
next_round false s = s

pub advance_at : Advance → Epochs → Epochs
unfolding advance_swap store_gc next_round
advance_at idle s = next_round s.is_running s
advance_at (bump min) s = record s {
  global_epoch = s.global_epoch + 1;
  maintainer = load_current min;
}
advance_at (load_current min) s = record s { maintainer = load_count min s.global_epoch }
advance_at (load_count min cur) s = record s { maintainer = scan min cur s.count }
advance_at (scan min cur zero) s = store_gc min s
advance_at (scan min cur (suc i)) s = record s {
  maintainer = scan_swap min cur i (epoch_status (s.threads i).status.epoch false);
}
advance_at (scan_swap min cur i old) s = advance_swap (same (s.threads i).status old) min cur i s
advance_at failed s = s

pub data Event : Type 0 where
  act : ℕ → Call → Event
  -- a thread calls `enter_epoch` for the first time
  register : Event
  maintain : Event

-- A thread that is not registered takes no step.
pub act_step : ℕ → Call → Epochs → Epochs
unfolding thread_at
act_step i c s =
    let (t, rs) = thread_at (s.threads i).pc c s.global_epoch s.gc_epoch (s.threads i) in
    if ltb i s.count
    then record s { threads = set_thread s.threads i t; released = s.released ++ rs }
    else s

-- `fetch_add` and the assert in `init_thread_epoch`
pub register_step : Epochs → Epochs
register_step s = record s {
  count = s.count + 1;
  threads =
      set_thread s.threads s.count
        (record (s.threads s.count) { pc = if ltb s.count max_threads then entering else aborted });
}

pub epochs_step : Event → Epochs → Epochs
unfolding act_step register_step advance_at
epochs_step (act i c) s = act_step i c s
epochs_step register s = register_step s
epochs_step maintain s = advance_at s.maintainer s

abbrev pub new_thread : Thread
new_thread = record { status = epoch_status 0 false; retire_list = []; pc = outside }

pub new : Epochs
new = record {
  global_epoch = 1;
  gc_epoch = 0;
  count = 0;
  threads = λ i. new_thread;
  maintainer = idle;
  is_running = true;
  released = [];
}

pub run_events : List Event → Epochs → Epochs
unfolding epochs_step
run_events [] s = s
run_events (e ∷ es) s = run_events es (epochs_step e s)

-- The loop of `destroy` over the threads from `i` on, for the rounds left.
pub release_lists : ℕ → ℕ → Epochs → Epochs
release_lists zero i s = s
release_lists (suc rounds) i s =
    let t = s.threads i in
    release_lists rounds (i + 1) (record s {
      threads = set_thread s.threads i (record t { retire_list = [] });
      released = s.released ++ t.retire_list;
    })

pub destroy : Epochs → Epochs
unfolding release_lists
destroy s = record (release_lists s.count 0 s) { is_running = false }
