-- ===== src/NodeAllocator/Tests.antt =====
-- One thread, and addresses in user space.
use rock_coro.Prelude.{ℕ, ◌<◌, ◌≡◌, ◌↔◌, refl, true, arith, inl, inr, [], ◌∷◌, Option, none, some}
use rock_coro.TaggedPtr.{get_ptr}
use rock_coro.NodeAllocator.{
  cache_count, NodeAllocator, new, push, pop, init_thread_local_cache, get, release, destroy,
}
use rock_coro.NodeAllocator.Chain.{Has}
use rock_coro.NodeAllocator.Valid.{MayRun}
use rock_coro.NodeAllocator.Get.{IsFresh}
use rock_coro.NodeAllocator.Uses.{Uses, made, got, let_go, caches_are_bounded, destroy_keeps_live}

abbrev address : ℕ
address = 0x7f0000001000

new-MayRun : MayRun 7 new
unfolding new
new-MayRun = inr (omega arith)

address-IsFresh : IsFresh address new
unfolding new
address-IsFresh = (omega arith, omega arith, refl)

-- What a call leaves.
abbrev left_by : Option (NodeAllocator × ℕ) → NodeAllocator
left_by none = new
left_by (some (s, node)) = s

abbrev one_node : NodeAllocator
one_node = left_by (get 7 address new)

first_get : get 7 address new ≡ some (one_node, address)
unfolding get new get_ptr pop init_thread_local_cache
first_get = refl

use_of_one : Uses one_node (get_ptr address ∷ [])
use_of_one = got 7 address address made new-MayRun address-IsFresh first_get

one_node-MayRun : MayRun 7 one_node
unfolding get new get_ptr pop init_thread_local_cache
one_node-MayRun = inl (0, refl)

caches_are_bounded_example :
    (s' : NodeAllocator) × (release 7 address one_node ≡ some s')
    × ((i : ℕ) → (s'.caches i).count < cache_count)
caches_are_bounded_example = caches_are_bounded 7 address one_node [] [] use_of_one one_node-MayRun

abbrev after : Option NodeAllocator → NodeAllocator
after none = one_node
after (some s) = s

-- The node is in the cache of the thread.
abbrev cached : NodeAllocator
cached = after (release 7 address one_node)

first_release : release 7 address one_node ≡ some cached
unfolding get new get_ptr pop push init_thread_local_cache release
first_release = refl

use_of_cached : Uses cached []
use_of_cached = let_go 7 address [] [] use_of_one one_node-MayRun first_release

destroy_keeps_live_example : ((destroy cached).nodes.allocated address ≡ true) ↔ Has address []
destroy_keeps_live_example = destroy_keeps_live cached [] address use_of_cached
