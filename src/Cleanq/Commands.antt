-- ===== src/Cleanq/Commands.antt =====
-- The handlers for the commands of the other side. cleanq/backends/ff/ff_queue.c and
-- cleanq/backends/ipc/ipc_queue.c have them in the same words.
use cleanq_linux.Base.{ℕ, Option, none, some, Run, done, ◌>>=◌, if◌then◌else◌}
use cleanq_linux.Types.{Errval, ok, err_is_fail, Capref}
use cleanq_linux.RegionPool.{Memory}
use cleanq_linux.Cleanq.{Cleanq, Callbacks, cleanq_add_region, cleanq_remove_region}

module _ {S : Type 0} (callbacks : Callbacks S) where
  call_register : Option ℕ → Cleanq S → Capref → ℕ → Run (Errval × Cleanq S)
  call_register none q cap rid = done (ok, q)
  call_register (some f) q cap rid = callbacks.on_register f q cap rid

  call_deregister : Option ℕ → Cleanq S → ℕ → Run (Errval × Cleanq S)
  call_deregister none q rid = done (ok, q)
  call_deregister (some f) q rid = callbacks.on_deregister f q rid

  unfoldable pub handle_register_command : Memory → Cleanq S → Capref → ℕ → Run (Errval × Cleanq S)
  unfolding call_register cleanq_add_region
  handle_register_command memory q cap rid = do
    (err, q') ← cleanq_add_region memory q cap rid
    if err_is_fail err then done (err, q') else call_register q'.register_callback q' cap rid

  unfoldable pub handle_deregister_command : Cleanq S → ℕ → Run (Errval × Cleanq S)
  unfolding call_deregister cleanq_remove_region
  handle_deregister_command q rid = do
    (err, q') ← cleanq_remove_region q rid
    if err_is_fail err then done (err, q') else call_deregister q'.deregister_callback q' rid
