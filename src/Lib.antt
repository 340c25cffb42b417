-- ===== src/Lib.antt =====
-- CleanQ for Linux: descriptor queues that hand buffers of registered memory regions between two
-- parties. This library models the C code under cleanq/ and proves properties of it.
--
-- The parts, from the bottom up. `Slab` is cleanq/slab.c, the block allocator. `RegionPool` is
-- cleanq/region_pool.c, the table of registered regions, which takes its blocks from `Slab`.
-- `Cleanq` is cleanq/queue_interface.c and queue_interface_internal.c: `cleanq_enqueue`,
-- `cleanq_register` and the others check against the pool and call the backend through the
-- function pointers of `struct cleanq`, here the record `Backend`; `Cleanq.Commands` has the
-- handlers for the commands of the other side. The backends: `Loopback` is
-- cleanq/backends/loopback/loopback_queue.c; `Ffq` is cleanq/backends/ff/ff_queue.c, over the
-- channels of ffq_impl.h in `Ffq.Channel`; `Ipcq` is cleanq/backends/ipc/ipc_queue.c. The creation
-- functions of the last two are `Ffq.Create` and `Ipcq.Create`. `Debug` is
-- cleanq/backends/debug/debug_queue.c, a queue that wraps another one and keeps, for each region,
-- the chunks of it that its side owns: `Chunks` has the linked list of chunks and
-- `remove_split_buffer`, `Chunks.Join` has `insert_merge_buffer`, `Debug` the enqueue,
-- `Debug.Receive` the dequeue, `Debug.Control` the other functions. `Bench` is
-- cleanq/utils/bench.c, the results of benchmark runs. `Types` has the types of
-- cleanq/include/cleanq/cleanq.h, `Shared` the memory that two processes share, `Fifo` the abstract
-- queue that the backends are compared with, `Base` the helpers.
--
-- Correspondence. A definition has the name of the C function, type or constant. A function takes
-- the state that it reads and returns the state that it writes; out parameters are components of
-- the result. `Run` tells how a call ends: `done`, `crash` for a failed assertion or an access
-- through a null pointer or out of range, `hang` when fuel is used up. Integers are natural
-- numbers with the wrap-around of their width written out where the code may reach it. A generic
-- queue is the record `Cleanq` with the backend's own state as `own`.
--
-- The elements of the debug queue's lists of chunks stand at addresses of a memory, and a freed one
-- is gone: an access to it is a crash. The list of its regions is a list, as are the free blocks of
-- a slab, each with its address.
--
-- Outside the model, as arguments: what `malloc` and `calloc` return (`Memory`), what the calls of
-- a creation function return (`System`), what `rand` returns, the code of the application's
-- callbacks (`Callbacks`). `mmap` gives addresses of pages. Shared memory holds 64-bit words at
-- their addresses; a call sees one state of it from its beginning to its end, so that the order of
-- two calls is kept, and memory barriers are not modelled. The two sides of a shared memory object
-- are given the same address for it.
--
-- Fuel. `find_slot` has 2 ^ 16 rounds, after which its 16-bit offset repeats; with an empty slot it
-- needs fewer than the size of the table. The dequeues of `Ffq` and `Ipcq` recurse after each
-- command; `Ipcq` needs one more round than there are descriptors in flight, or one where none of
-- them is a command, `Ffq` two. The busy wait of `ipcq_register` takes the list of acknowledgements
-- that the other side writes meanwhile. The walks of `Debug` along a list of chunks need no more
-- rounds than it has chunks.
--
-- Not modelled: the history of the debug queue (DQ_ENABLE_HIST), the printed analysis of a benchmark
-- and the instructions that read the cycle counter, debug prints, the test and example programs, the
-- contents of allocated blocks, what `free` and `munmap` do to memory.
pub mod Base
pub mod Types
pub mod Slab
pub mod Chunks
pub mod RegionPool
pub mod Cleanq
pub mod Debug
pub mod Loopback
pub mod Bench
pub mod Fifo
pub mod Shared
pub mod Ffq
pub mod Ipcq
