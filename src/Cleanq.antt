-- ===== src/Cleanq.antt =====
-- cleanq/queue_interface.c and cleanq/queue_interface_internal.c: the generic part of every queue,
-- over the functions of a backend (cleanq/include/cleanq_backend.h).
pub mod Commands
pub mod Guard
pub mod Regions
use cleanq_linux.Base.{ℕ, Bool, Option, none, some, Run, done, crash, ◌>>=◌, if◌then◌else◌}
use cleanq_linux.Types.{Errval, ok, invalid_buffer_args, err_is_fail, Capref, Buf}
use cleanq_linux.RegionPool.{
  RegionPool, Fate, Memory, region_pool_init, region_pool_destroy, region_pool_add_region,
  region_pool_add_region_with_id, region_pool_remove_region, region_pool_buffer_check_bounds,
}

-- `struct cleanq` with the backend's own state `own` behind it. Function pointers to callbacks are
-- addresses, `none` for a null pointer; the backend's functions are `Backend` below.
pub record Cleanq (S : Type 0) : Type 0 where
  pub pool : RegionPool
  pub state : ℕ
  pub register_callback : Option ℕ
  pub deregister_callback : Option ℕ
  pub own : S

-- What a dequeue leaves in its caller's six variables, beside its result and the queue.
abbrev pub Dequeued : Type 0 → Type 0
Dequeued S = Errval × Buf × Cleanq S

-- The functions behind `q->f`. `deq` is given what its caller's six variables hold before.
-- `destroy` is `none` where the pointer was never set.
pub record Backend (S : Type 0) : Type 0 where
  pub reg : Cleanq S → Capref → ℕ → Run (Errval × Cleanq S)
  pub dereg : Cleanq S → ℕ → Run (Errval × Cleanq S)
  pub ctrl : Cleanq S → ℕ → ℕ → ℕ → Run (Errval × ℕ × Cleanq S)
  pub notify : Cleanq S → Run (Errval × Cleanq S)
  pub enq : Cleanq S → Buf → Run (Errval × Cleanq S)
  pub deq : Cleanq S → Buf → Run (Dequeued S)
  pub destroy : Option (Cleanq S → Run Errval)

-- The code that stands at the addresses of the application's callbacks.
pub record Callbacks (S : Type 0) : Type 0 where
  pub on_register : ℕ → Cleanq S → Capref → ℕ → Run (Errval × Cleanq S)
  pub on_deregister : ℕ → Cleanq S → ℕ → Run (Errval × Cleanq S)

abbrev pub check_bounds : RegionPool → Buf → Run Bool
check_bounds p b =
    region_pool_buffer_check_bounds p b.rid b.offset b.length b.valid_data b.valid_length

-- `q->pool` of a new queue
unfoldable pub cleanq_init : Bool → Bool → ℕ → Errval × Option RegionPool
cleanq_init pool_ok slots_ok random = region_pool_init pool_ok slots_ok random

module _ {S : Type 0} where
  unfoldable pub cleanq_enqueue : Backend S → Cleanq S → Buf → Run (Errval × Cleanq S)
  cleanq_enqueue f q b = do
    valid ← check_bounds q.pool b
    if valid then f.enq q b else done (invalid_buffer_args, q)

  unfoldable pub cleanq_dequeue : Backend S → Cleanq S → Buf → Run (Dequeued S)
  cleanq_dequeue f q out = do
    (err, b, q') ← f.deq q out
    if err_is_fail err then done (err, b, q') else (do
      valid ← check_bounds q'.pool b
      if valid then done (ok, b, q') else done (invalid_buffer_args, b, q'))

  unfoldable pub cleanq_notify : Backend S → Cleanq S → Run (Errval × Cleanq S)
  cleanq_notify f q = f.notify q

  -- the caller's `region_id` and `f.reg` after the pool has accepted the region
  register_with : Backend S → Cleanq S → Capref → Option ℕ → Run (Errval × Option ℕ × Cleanq S)
  register_with f q cap none = crash
  register_with f q cap (some rid) = do (err, q') ← f.reg q cap rid; done (err, some rid, q')

  unfoldable pub cleanq_register :
      Backend S → Memory → Cleanq S → Capref → Run (Errval × Option ℕ × Cleanq S)
  unfolding register_with
  cleanq_register f memory q cap = do
    (err, rid, pool) ← region_pool_add_region memory q.pool cap
    let q' : Cleanq S = record q { pool = pool }
    if err_is_fail err then done (err, rid, q') else register_with f q' cap rid

  unfoldable pub cleanq_deregister :
      Backend S → Cleanq S → ℕ → Run (Errval × Option Capref × Cleanq S)
  cleanq_deregister f q rid = do
    (err, cap, pool) ← region_pool_remove_region q.pool rid
    let q' : Cleanq S = record q { pool = pool }
    if err_is_fail err
        then done (err, cap, q')
        else (do (err', q'') ← f.dereg q' rid; done (err', cap, q''))

  unfoldable pub cleanq_control : Backend S → Cleanq S → ℕ → ℕ → ℕ → Run (Errval × ℕ × Cleanq S)
  cleanq_control f q request value result = f.ctrl q request value result

  -- a call through `f.destroy`; a null pointer crashes
  pub call_destroy : Option (Cleanq S → Run Errval) → Cleanq S → Run Errval
  call_destroy none q = crash
  call_destroy (some destroy) q = destroy q

  -- `q->pool` dangles after the pool is freed. The backend's function does not look at it.
  unfoldable pub cleanq_destroy : Backend S → Cleanq S → Run (Errval × Fate)
  unfolding call_destroy
  cleanq_destroy f q = do
    (err, pool) ← region_pool_destroy q.pool
    if err_is_fail err
        then done (err, pool)
        else (do err' ← call_destroy f.destroy q; done (err', pool))

  unfoldable pub cleanq_set_state : Cleanq S → ℕ → Cleanq S
  cleanq_set_state q state = record q { state = state }

  unfoldable pub cleanq_get_state : Cleanq S → ℕ
  cleanq_get_state q = q.state

  unfoldable pub cleanq_set_register_callback : Cleanq S → Option ℕ → Cleanq S
  cleanq_set_register_callback q cb = record q { register_callback = cb }

  unfoldable pub cleanq_set_deregister_callback : Cleanq S → Option ℕ → Cleanq S
  cleanq_set_deregister_callback q cb = record q { deregister_callback = cb }

  unfoldable pub cleanq_add_region : Memory → Cleanq S → Capref → ℕ → Run (Errval × Cleanq S)
  cleanq_add_region memory q cap rid = do
    (err, pool) ← region_pool_add_region_with_id memory q.pool cap rid
    done (err, record q { pool = pool })

  unfoldable pub cleanq_remove_region : Cleanq S → ℕ → Run (Errval × Cleanq S)
  cleanq_remove_region q rid = do
    (err, cap, pool) ← region_pool_remove_region q.pool rid
    done (err, record q { pool = pool })
