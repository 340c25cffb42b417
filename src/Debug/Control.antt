-- ===== src/Debug/Control.antt =====
-- The control path of cleanq/backends/debug/debug_queue.c, and the functions it sets as a backend.
use cleanq_linux.Base.{
  ℕ, Bool, false, ◌&&◌, Option, none, some, List, [], ◌∷◌, ◌++◌, Run, done, crash, ◌>>=◌, ◌>>◌,
  assert, ◌==◌, if◌then◌else◌,
}
use cleanq_linux.Types.{Errval, ok, invalid_region_id, region_destroy, err_is_fail, Capref}
use cleanq_linux.Slab.{slab_init, slab_free, default_refill}
use cleanq_linux.Chunks.{MemoryEle, load, free_ele}
use cleanq_linux.RegionPool.{RegionPool, Memory}
use cleanq_linux.Cleanq.{Cleanq, Backend, cleanq_init, cleanq_add_region, cleanq_remove_region}
use cleanq_linux.Debug.{
  MemoryList, Debugq, Place, find_region, Line, dump_list, tracked, debug_enqueue,
}
use cleanq_linux.Debug.Receive.{append_region, debug_dequeue}

-- whether the region's only chunk is the whole region
abbrev pub whole : MemoryList → MemoryEle → Bool
whole r e = (e.offset == 0) && (e.length == r.length) && (e.next == 0)

-- The list that `debug_deregister` prints when it fails: that of the region, or of the one before
-- it if there is one.
abbrev pub dumped : List MemoryList → MemoryList → MemoryList
dumped [] r = r
dumped (b ∷ bs) r = dumped bs b

module _ {S : Type 0} where
  unfoldable pub debug_notify : Backend S → Debugq S → Run (Errval × Debugq S)
  debug_notify f d = do (err, q) ← f.notify d.q; done (err, record d { q = q })

  unfoldable pub debug_control : Backend S → Debugq S → ℕ → ℕ → ℕ → Run (Errval × ℕ × Debugq S)
  debug_control f d cmd value result = do
    (err, result', q) ← f.ctrl d.q cmd value result
    done (err, result', record d { q = q })

  unfoldable pub debug_register :
      Option ℕ → Option ℕ → Backend S → Debugq S → Capref → ℕ → Run (Errval × Debugq S)
  debug_register memory memory_list f d cap rid = do
    (err, q) ← f.reg d.q cap rid
    let d' : Debugq S = record d { q = q }
    if err_is_fail err
        then done (err, d')
        else (do d'' ← append_region memory memory_list d' rid cap.len false; done (ok, d''))

  -- the region leaves the list, its chunk and itself go back to the allocators
  unfoldable pub remove_region : Debugq S → Place → Run (Debugq S)
  remove_region d (before, r, after) = do
    s ← free_ele (tracked d r) r.buffers
    alloc_list ← slab_free d.alloc_list (some r.addr)
    done (record d {
      regions = before ++ after;
      heap = s.heap;
      alloc = s.alloc;
      alloc_list = alloc_list;
    })

  unfoldable pub deregister_at : ℕ → Backend S → Debugq S → Place → ℕ → Run (Errval × Debugq S)
  deregister_at fuel f d (before, r, after) rid = do
    e ← load d.heap r.buffers
    if whole r e
        then (do
          (err, q) ← f.dereg d.q rid
          let d' : Debugq S = record d { q = q }
          if err_is_fail err
              then done (err, d')
              else (do d'' ← remove_region d' (before, r, after); done (ok, d'')))
        else (do
          lines ← dump_list fuel d.heap ((dumped before r).buffers)
          done (region_destroy, d))

  abbrev pub deregister_found :
      ℕ → Backend S → Debugq S → ℕ → Option Place → Run (Errval × Debugq S)
  deregister_found fuel f d rid none = done (invalid_region_id, d)
  deregister_found fuel f d rid (some place) = deregister_at fuel f d place rid

  unfoldable pub debug_deregister : ℕ → Backend S → Debugq S → ℕ → Run (Errval × Debugq S)
  debug_deregister fuel f d rid = deregister_found fuel f d rid (find_region d.regions rid)

  unfoldable pub debug_destroy : Cleanq (Debugq S) → Run Errval
  debug_destroy q = done ok

  -- the result of a function of the backend's own state, as one of the queue
  abbrev pub in_queue : Cleanq (Debugq S) → Errval × Debugq S → Errval × Cleanq (Debugq S)
  in_queue q (err, d) = (err, record q { own = d })

  -- the function pointers that `cleanq_debugq_create` sets
  abbrev pub debug_backend : ℕ → Option ℕ → Option ℕ → Backend S → Backend (Debugq S)
  debug_backend fuel memory memory_list f = record {
    reg =
        λ q cap rid. debug_register memory memory_list f q.own cap rid >>= λ r. done (in_queue q r);
    dereg = λ q rid. debug_deregister fuel f q.own rid >>= λ r. done (in_queue q r);
    ctrl = λ q cmd value result.
        debug_control f q.own cmd value result >>= λ r. done (r.0, r.1, record q { own = r.2 });
    notify = λ q. debug_notify f q.own >>= λ r. done (in_queue q r);
    enq = λ q b. debug_enqueue fuel memory f q.own b >>= λ r. done (in_queue q r);
    deq = λ q out. debug_dequeue fuel memory memory_list f q.own out >>= λ r.
        done (r.0, r.1, record q { own = r.2 });
    destroy = some debug_destroy;
  }

  created : Errval × Option RegionPool → Cleanq S → Errval × Option (Cleanq (Debugq S))
  created (err, none) other_q = (err, none)
  created (err, some pool) other_q = (
    ok,
    some (record {
      pool = pool;
      state = 0;
      register_callback = none;
      deregister_callback = none;
      own = record {
        q = other_q;
        regions = [];
        heap = λ p. none;
        alloc = slab_init 32 default_refill;
        alloc_list = slab_init 40 default_refill;
      };
    }),
  )

  -- `queue_ok` is the outcome of the `calloc` of the queue, which the code asserts
  unfoldable pub cleanq_debugq_create :
      Bool → Bool → Bool → ℕ → Cleanq S → Run (Errval × Option (Cleanq (Debugq S)))
  unfolding created
  cleanq_debugq_create queue_ok pool_ok slots_ok random other_q =
      assert queue_ok >> done (created (cleanq_init pool_ok slots_ok random) other_q)

  -- An unknown region is printed through a null pointer.
  unfoldable pub cleanq_debugq_dump_region : ℕ → Debugq S → ℕ → Run (List Line)
  cleanq_debugq_dump_region fuel d rid = elim (find_region d.regions rid) [
    | none ↦ crash
    | some place ↦ dump_list fuel d.heap (place.1.buffers)
  ]

  unfoldable pub cleanq_debugq_add_region :
      Memory → Cleanq (Debugq S) → Capref → ℕ → Run (Errval × Cleanq (Debugq S))
  cleanq_debugq_add_region memory q cap rid = cleanq_add_region memory q cap rid

  unfoldable pub cleanq_debugq_remove_region :
      Cleanq (Debugq S) → ℕ → Run (Errval × Cleanq (Debugq S))
  cleanq_debugq_remove_region q rid = cleanq_remove_region q rid
