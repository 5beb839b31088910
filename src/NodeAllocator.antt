-- ===== src/NodeAllocator.antt =====
-- src/memory/ts_linked_list.cpp: the nodes of the thread-safe lists, and a cache of them per thread.
-- A pointer is a tagged word, null if get_ptr gives 0; memory is by address. What `new` returns is an
-- argument, and `delete` takes the address back.
pub mod Chain
pub mod Drop
pub mod Valid
pub mod Get
pub mod Release
pub mod Destroy
pub mod Uses
mod Tests
use rock_coro.Prelude.{
  ℕ, zero, suc, ◌+◌, ◌-◌, Bool, true, false, Option, none, some, ltb, ◌==◌, if◌then◌else◌,
}
use rock_coro.TaggedPtr.{get_ptr}

-- TS_LINKED_LIST_NODE_CACHE_MAX_THREADS, _COUNT and _BATCH_RELEASE_COUNT
abbrev pub max_threads : ℕ
max_threads = 1024

abbrev pub cache_count : ℕ
cache_count = 128

abbrev pub batch_count : ℕ
batch_count = 64

-- The fields of the nodes by address, and the addresses that `new` returned and `delete` did not take.
pub record Nodes : Type 0 where
  pub next : ℕ → ℕ
  pub value : ℕ → ℕ
  pub released : ℕ → Bool
  pub allocated : ℕ → Bool
  pub new_count : ℕ

abbrev pub set : {A : Type 0} → (ℕ → A) → ℕ → A → ℕ → A
set f a v b = if b == a then v else f b

pub record Cache : Type 0 where
  pub head : ℕ
  pub count : ℕ

abbrev pub new_cache : Cache
new_cache = record { head = 0; count = 0 }

pub push : ℕ → Nodes → Cache → Nodes × Cache
push node n c = (
  record n { next = set n.next (get_ptr node) c.head },
  record { head = node; count = c.count + 1 },
)

abbrev pub without_head : Nodes → Cache → Cache
without_head n c = record { head = n.next (get_ptr c.head); count = c.count - 1 }

pub pop : Nodes → Cache → Cache × ℕ
pop n c = if get_ptr c.head == 0 then (c, 0) else (without_head n c, c.head)

abbrev pub delete : ℕ → Nodes → Nodes
delete node n = record n { allocated = set n.allocated (get_ptr node) false }

-- The loop of `TSLinkedListNodeCache::destroy`, on fuel.
pub destroy_cache : ℕ → Nodes → Cache → Nodes × Cache
destroy_cache zero n c = (n, c)
destroy_cache (suc fuel) n c =
    let rest = destroy_cache fuel (delete c.head n) (record c { head = n.next (get_ptr c.head) }) in
    if get_ptr c.head == 0 then (n, c) else rest

-- The loop of `batch_release`, for the rounds left.
pub drop_nodes : ℕ → Nodes → Cache → Nodes × Cache
unfolding pop
drop_nodes zero n c = (n, c)
drop_nodes (suc rounds) n c =
    let (c', node) = pop n c in
    let rest = drop_nodes rounds (delete node n) c' in if get_ptr node == 0 then (n, c') else rest

-- `cache_index` is the thread_local ts_node_cache_index, with `none` for -1.
pub record NodeAllocator : Type 0 where
  pub nodes : Nodes
  pub caches : ℕ → Cache
  pub caches_count : ℕ
  pub cache_index : ℕ → Option ℕ

-- `none` is a failed assert.
pub init_thread_local_cache : ℕ → NodeAllocator → Option (NodeAllocator × ℕ)
init_thread_local_cache t s = elim (s.cache_index t) [
  | some i ↦ some (s, i)
  | none ↦
      if ltb s.caches_count max_threads
      then some (
        record s {
          caches_count = s.caches_count + 1;
          cache_index = set s.cache_index t (some s.caches_count);
        },
        s.caches_count,
      )
      else none
]

-- What `get` does with the node of the cache, or with `fresh`, the address from `new`.
abbrev pub taken_or_new : ℕ → Nodes → ℕ → Nodes × ℕ
taken_or_new fresh n node =
    if get_ptr node == 0
    then (
      record n {
        next = set n.next fresh 0;
        value = set n.value fresh 0;
        allocated = set n.allocated fresh true;
        new_count = n.new_count + 1;
      },
      fresh,
    )
    else (n, node)

abbrev pub reset : Nodes × ℕ → Nodes × ℕ
reset (n, node) = (
  record n { released = set n.released (get_ptr node) false; next = set n.next (get_ptr node) 0 },
  node,
)

abbrev pub get_from : ℕ → Option (NodeAllocator × ℕ) → Option (NodeAllocator × ℕ)
get_from fresh none = none
get_from fresh (some (s, i)) =
    let (c, node) = pop s.nodes (s.caches i) in
    let (n, node') = reset (taken_or_new fresh s.nodes node) in
    some (record s { nodes = n; caches = set s.caches i c }, node')

pub get : ℕ → ℕ → NodeAllocator → Option (NodeAllocator × ℕ)
unfolding pop init_thread_local_cache
get t fresh s = get_from fresh (init_thread_local_cache t s)

-- `batch_release` on the cache with index `i`.
pub batch_release : ℕ → NodeAllocator → NodeAllocator
unfolding drop_nodes
batch_release i s =
    let (n, c) = drop_nodes batch_count s.nodes (s.caches i) in
    record s { nodes = n; caches = set s.caches i c }

abbrev pub release_to : ℕ → Option (NodeAllocator × ℕ) → Option NodeAllocator
release_to node none = none
release_to node (some (s, i)) =
    let marked : Nodes = record s.nodes { released = set s.nodes.released (get_ptr node) true } in
    let (n, c) = push node marked (s.caches i) in
    let s' : NodeAllocator = record s { nodes = n; caches = set s.caches i c } in
    let batch = batch_release i s' in some (if ltb c.count cache_count then s' else batch)

pub release : ℕ → ℕ → NodeAllocator → Option NodeAllocator
unfolding push batch_release init_thread_local_cache
release t node s = release_to node (init_thread_local_cache t s)

pub new : NodeAllocator
new = record {
  nodes = record {
    next = λ a. 0;
    value = λ a. 0;
    released = λ a. false;
    allocated = λ a. false;
    new_count = 0;
  };
  caches = λ i. new_cache;
  caches_count = 0;
  cache_index = λ t. none;
}

-- The loop of `destroy`, for the caches left. A cache has fewer than `cache_count` nodes.
pub destroy_caches : ℕ → NodeAllocator → NodeAllocator
unfolding destroy_cache
destroy_caches zero s = s
destroy_caches (suc i) s =
    let (n, c) = destroy_cache cache_count s.nodes (s.caches i) in
    destroy_caches i (record s { nodes = n; caches = set s.caches i c })

pub destroy : NodeAllocator → NodeAllocator
unfolding destroy_caches
destroy s = destroy_caches s.caches_count s
