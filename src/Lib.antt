-- ===== src/Lib.antt =====
-- RockCoro, a stackful coroutine runtime: its timer, its scheduler and its containers.
--
-- The program has four parts. The scheduler (src/scheduler, include/scheduler.h) runs coroutines
-- (src/coroutine) on worker threads from one job queue (src/memory/ts_linked_list.h), whose nodes
-- come back through epoch-based reclamation (src/memory). A coroutine that sleeps is handed to the
-- timer (src/timer), whose thread pushes it back to the job queue when its delay is over. The
-- containers of src/basic_struct serve all of them.
--
-- Prelude: tests and lists over native numbers, results, indices round a ring, and the rule that
--   turns a step-by-step simulation into one on runs of calls (Prelude/Refinement).
-- Timer: src/timer/timewheel.h and timewheel.cpp. A slot is the list of its nodes (Timer/Nodes has
--   these lists at the level of pointers, with one `next` for each node in one memory), a wheel's array
--   of slots is a function on indices, and `lower` and `upper` are neighbours in a list of wheels,
--   lowest first. `tick` and `tick_upper` are TimeWheel::tick for the two cases of `lower`; `round`
--   is one turn of the loop of TimerManager::event_loop, and `event_loop` is that loop over a given
--   schedule of calls of TimerManager::add_event. An exception is the result `throw`.
--   Timer/Due says when a waiting node is due; Turn, Carry and Tick follow one tick, Request and
--   Pending the way in, Loop and Sleep whole runs. Delays are natural numbers: what a negative
--   delay does, which indexes an array below its start, is left out. Clocks, sleeping and the
--   scheduler's job_push are not modelled; the jobs of each round are the result. One coroutine
--   is taken to wait at most once at a time, since its node is part of it.
-- Scheduler: src/scheduler/scheduler.cpp, tl_scheduler.cpp, and coroutine_entry_function of
--   src/coroutine/context.cpp. A worker is its TLScheduler and its place in the event loop; `step_at`
--   is one access of it to shared state, with the choice of a coroutine as an argument;
--   `system_step` adds the other threads: the timer's pushes (`fire`), coroutine_create from outside
--   (`spawn`), their posts, and destroy. The job queue is atomic here, the timer a list of coroutines,
--   and the numbers of threads and coroutines are not bounded by a word. Scheduler/Sums counts over
--   workers, Shape says which pointers are null where, Tokens matches jobs with posts, Places follows
--   each coroutine. The register switch (context_swap.S) and started_ are not modelled.
-- EpochBasedReclamation: src/memory/epoch_based_reclamation.h and .cpp. A thread is named by the
--   index that it registers for; `thread_at` is its next access to what is shared, by its place in
--   enter_epoch, exit_epoch or retire, and `advance_at` is that of the maintainer. A weak
--   compare-exchange may fail for no reason. A failed assert is a place of its own, from which there
--   is no step. Memory is sequentially consistent, and epochs stay below 2 ^ 63. The retire list is
--   the queue that Deque refines. Local and Effects follow one step of a thread, Advances and Advanced
--   one of the maintainer, Runs and Safety whole interleavings, Conservation counts the records.
-- TaggedPtr: src/memory/tagged_ptr.h. A pointer is the number of its word, and the masks and shifts
--   are those of the code, at 64 bits. Bits has the laws of the operations on digits, at any width.
-- NodeAllocator: src/memory/ts_linked_list.cpp. Memory is by address, and the word of a node may have a
--   tag. `get` takes the address that new returns, in case it needs one. A cache belongs to one thread,
--   so the calls are in sequence. Chain is about the nodes of one cache, Drop and Destroy about the
--   loops that delete nodes (a destroyed cache has fewer than 128, which is the fuel), Valid, Get and
--   Release about all the caches, Uses about any calls.
-- TsLinkedList: src/memory/ts_linked_list.h, the queue under the scheduler. `thread_at` is the next
--   access of a thread to shared memory, by its place in push_back or pop_front, and a weak
--   compare-exchange may fail for no reason. Any number of threads interleave, and reuse of nodes with
--   their tags is part of it. The allocator and the epochs are taken by what their own modules show:
--   get returns a node that is not live, and a retired node is not released while a thread is in an
--   epoch that it entered before; from its release on, the next pointer of a node is any word. init is
--   one step, since Scheduler::init calls it before there are threads, and its later calls, at the
--   beginning of push_back and pop_front, are no steps; destroy runs after the threads.
--   System has the threads of a program, the releases, and the queue of values that a run is replayed on.
--   Ghost numbers the nodes in the order in which they were linked, and says what each address and each
--   thread has to do with them; Later and Keep are what a step leaves to the others; Own, Get, Ends,
--   Link, Unlink and Retire are the steps, one kind after the other, Steps all of them, Release that of
--   the epochs. History replays the calls; Runs, Linearize and Destroy are about whole runs, Solo and
--   Progress about a thread that runs alone.
-- Coroutine: Stack is src/coroutine/stack.cpp and Context is src/coroutine/context.cpp. The address
--   space says of each address whether it is mapped and may be written, and has a word of eight bytes
--   at each address that a word was stored at. sysconf, mmap, mprotect and munmap are a
--   parameter, with what they are documented to do as a hypothesis: each of the last three may fail,
--   and mprotect and munmap then may have done a part of their work inside their range.
-- BasicStruct: src/basic_struct/vector.h, array.h, deque.h, queue.h. A buffer is a function from indices to
--   cells, which hold an object or nothing (BasicStruct/Memory). A failed assert is `none`; in Vector it
--   is `aborted`, and `overrun` is an access that is not below the capacity, or a read or a destruction
--   where there is no object (BasicStruct/Buffer, which checks each access).
--   Elements are values: what their constructors and destructors do is not modelled, and size_t does
--   not wrap, since a buffer is smaller than the address space.
-- BasicStruct/ChunkedVector: src/basic_struct/chunked_vector.h, with a std::vector as a list. Blocks,
--   Shrink, Fill and Grow say what its operations do to full blocks with a last one that may not be
--   full; Iterator has the iterators, an address and a 64-bit index.
-- BasicStruct/Queue: src/basic_struct/queue.h. A segment is a function from offsets to items, and a
--   null segment is `none`; `item_at` reads through both. What pop returns is the item and not its
--   address. Indices has the arithmetic of the ring.
-- BasicStruct/LinkedList: src/basic_struct/linked_list.h on a heap, a function from the addresses of
--   nodes to their next pointers, with 0 for null.
-- BasicStruct/MinHeap: src/basic_struct/min_heap.h. IntrusiveHeap keeps the vector as a function on
--   the indices below its size, and `heap_index_` as a function on the objects, so that -1 is `none`.
--   The comparison is a parameter of each call, since it reads the objects as they then are; a theorem
--   takes it to be a strict weak order. The loops run on fuel: the index for sift_up, the size for
--   sift_down. Index is about `heap_index_`, Order, Sift, Loops and Around about the order, Push,
--   Remove, Pop and Update about the operations, Owned and Uses about the heap with its pool.
-- BasicStruct/ObjectPool: src/basic_struct/object_pool.h. An object is a block's number and an index;
--   Balance counts each object in the free list and among the live ones, Uses has the sequences of
--   acquire and release.
-- Loops over counters are recursions on the rounds left and need no fuel. Besides those of MinHeap
-- and NodeAllocator, three loops have fuel: that of TSLinkedList::destroy has two rounds more than
-- there were calls, that of ChunkedVector::resize the new size, which is enough since a block has an
-- element or more, and a loop over iterators one round more than there are elements.
--
-- Not modelled: RedBlackTree, which only the tests use; context_swap.S, which is assembly; log,
-- bootstrap and thread_info, which print, start threads and count them. Memory orders weaker than
-- sequential consistency are not part of any model.
pub mod Prelude
pub mod TaggedPtr
pub mod Timer
pub mod Scheduler
pub mod BasicStruct
pub mod EpochBasedReclamation
pub mod NodeAllocator
pub mod TsLinkedList
pub mod Coroutine
