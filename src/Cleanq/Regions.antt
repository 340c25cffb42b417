-- ===== src/Cleanq/Regions.antt =====
-- `cleanq_register` and `cleanq_deregister` (cleanq/queue_interface.c) over any backend.
use cleanq_linux.Base.{ℕ, ◌≡◌, false, some, done}
use cleanq_linux.Types.{Errval, Capref}
use cleanq_linux.Slab.{SlabAllocator, slab_alloc, slab_free}
use cleanq_linux.RegionPool.{RegionPool, RegionRef, Memory, conflicts}
use cleanq_linux.RegionPool.Invariant.{IsValid, slot_of}
use cleanq_linux.RegionPool.Add.{HasRoom, Added, region_pool_add_region-Added}
use cleanq_linux.RegionPool.Remove.{Removed, region_pool_remove_region-Removed}
use cleanq_linux.Cleanq.{Cleanq, Backend, cleanq_register, cleanq_deregister}

module _ {S : Type 0} (f : Backend S) (q : Cleanq S) (v : IsValid q.pool) where
  -- `cleanq_register` of a region that does not conflict, on a valid pool with room and a block,
  -- when the backend's function ends and leaves the pool alone: the pool gets the region under a
  -- new id, and the backend's function is called with that id on the queue with the new pool. Its
  -- error is the result, whatever it is, and the pool keeps the region also when it is not `ok`.
  pub cleanq_register-Added :
      (memory : Memory) (cap : Capref) (b : ℕ) (alloc : SlabAllocator)
      → slab_alloc memory.malloc q.pool.region_alloc ≡ done (some b, alloc)
      → conflicts q.pool.pool cap ≡ false
      → HasRoom memory q.pool
      → ((q' : Cleanq S) (rid : ℕ)
          → (r : Errval × Cleanq S) × (f.reg q' cap rid ≡ done r) × (r.1.pool ≡ q'.pool))
      → (rid : ℕ) × (q' : Cleanq S) × (err : Errval) × (cleanq_register f memory q cap
          ≡ done (err, some rid, q'))
        × ((pool : RegionPool) × (f.reg (record q { pool = pool }) cap rid ≡ done (err, q'))
            × (q'.pool ≡ pool)
            × Added q.pool pool cap rid b)
  unfolding cleanq_register
  cleanq_register-Added memory cap b alloc got free room registers =
      let (rid, pool, run, added) =
        region_pool_add_region-Added memory q.pool cap v b alloc got free room in
      let ((err, q'), backend, same) = registers (record q { pool = pool }) rid in
      (rid, q', err, rw (run, backend), (pool, backend, same, added))

  -- `cleanq_deregister`, on a valid pool, of an id whose slot holds a region, whose block the
  -- allocator takes back, when the backend's function ends and leaves the pool alone: the pool is
  -- without the region, and the backend's function is called on the queue with the new pool. Its
  -- error is the result, whatever it is; the caller gets the region's memory also when it is not
  -- `ok`.
  pub cleanq_deregister-Removed :
      (rid : ℕ) (r : RegionRef) (alloc : SlabAllocator)
      → slot_of q.pool rid ≡ some (some r)
      → slab_free q.pool.region_alloc (some r.block) ≡ done alloc
      → ((q' : Cleanq S)
          → (o : Errval × Cleanq S) × (f.dereg q' rid ≡ done o) × (o.1.pool ≡ q'.pool))
      → (q' : Cleanq S) × (err : Errval) × (cleanq_deregister f q rid
          ≡ done (err, some r.region.cap, q'))
        × ((pool : RegionPool) × (f.dereg (record q { pool = pool }) rid ≡ done (err, q'))
            × (q'.pool ≡ pool)
            × Removed q.pool pool rid)
  unfolding cleanq_deregister
  cleanq_deregister-Removed rid r alloc taken freed deregisters =
      let (pool, run, removed) =
        region_pool_remove_region-Removed q.pool rid v r alloc taken freed in
      let ((err, q'), backend, same) = deregisters (record q { pool = pool }) in
      (q', err, rw (run, backend), (pool, backend, same, removed))
