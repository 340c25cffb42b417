-- ===== src/Ipcq/Release.antt =====
-- What `cleanq_ipcq_create` gives back when it fails, and `cleanq_destroy` of its queue
-- (cleanq/backends/ipc/ipc_queue.c).
use cleanq_linux.Base.{
  ℕ, ◌≡◌, refl, inl, inr, true, false, Bool, Option, none, some, List, Run, done, crash, hang,
  ◌>>=◌, if◌then◌else◌, Bool-cases, ◌≢◌,
}
use cleanq_linux.Types.{Errval, ok, err_is_fail}
use cleanq_linux.RegionPool.{Fate, Memory, region_pool_destroy, region_pool_init}
use cleanq_linux.Cleanq.{cleanq_init, cleanq_destroy, Callbacks, call_destroy}
use cleanq_linux.Shared.{System}
use cleanq_linux.Shared.Acquire.{LeavesDescriptor}
use cleanq_linux.Ipcq.{Ipcq, IpcqQ, ipcq_backend}
use cleanq_linux.Ipcq.Create.{cleanq_ipcq_create}

-- `cleanq_ipcq_create` returns a queue exactly if all its calls succeed; when one fails, it
-- returns an error and no queue, and gives back the mapping, the name of the shared memory, the
-- copy of the name and the queue, as far as the calls before had acquired them, the latest first.
-- The descriptor of `shm_open` is open afterwards exactly if one of the two calls of it was made
-- and succeeded, whether a queue is returned or not.
pub cleanq_ipcq_create-LeavesDescriptor :
    (os : System) (clear : Bool) → LeavesDescriptor os (cleanq_ipcq_create os clear)
unfolding cleanq_ipcq_create cleanq_init region_pool_init
cleanq_ipcq_create-LeavesDescriptor os clear =
    go os.calloc_ok os.strdup os.exclusive_ok os.open_ok os.truncate_ok os.mapped os.pool_ok
      os.slots_ok
  where
    with_calls : Bool → Option ℕ → Bool → Bool → Bool → Option ℕ → Bool → Bool → System
    with_calls c s x o t m p l = record {
      calloc_ok = c;
      strdup = s;
      exclusive_ok = x;
      open_ok = o;
      truncate_ok = t;
      mapped = m;
      found = os.found;
      pool_ok = p;
      slots_ok = l;
      random = os.random;
    }

    go :
        (c : Bool) (s : Option ℕ) (x o t : Bool) (m : Option ℕ) (p l : Bool)
        → LeavesDescriptor
            (with_calls c s x o t m p l)
            (cleanq_ipcq_create (with_calls c s x o t m p l) clear)
    go false s x o t m p l = (((λ e. cc), refl, refl), refl)
    go true none x o t m p l = (((λ e. cc), refl, refl), refl)
    go true (some s) false false t m p l = (((λ e. cc), refl, refl), refl)
    go true (some s) false true t none p l = (((λ e. cc), refl, refl), refl)
    go true (some s) false true t (some m) false l = (((λ e. cc), refl, refl), refl)
    go true (some s) false true t (some m) true false = (((λ e. cc), refl, refl), refl)
    go true (some s) false true t (some m) true true = ((refl, (λ e. cc), refl), refl)
    go true (some s) true o false m p l = (((λ e. cc), refl, refl), refl)
    go true (some s) true o true none p l = (((λ e. cc), refl, refl), refl)
    go true (some s) true o true (some m) false l = (((λ e. cc), refl, refl), refl)
    go true (some s) true o true (some m) true false = (((λ e. cc), refl, refl), refl)
    go true (some s) true o true (some m) true true = ((refl, (λ e. cc), refl), refl)

destroy_end :
    (r : Run (Errval × Fate)) (call : Run Errval) (pool : Fate)
    → call ≡ crash
    → (r >>= λ (x : Errval × Fate).
        if err_is_fail x.0 then done x else (call >>= λ err'. done (err', x.1)))
      ≢ done (ok, pool)
destroy_end crash call pool h e = cc
destroy_end hang call pool h e = cc
destroy_end (done (err, p)) call pool h e = elim (Bool-cases (err_is_fail err)) [
  | inl failed ↦ let same : err ≡ ok = cc (rw failed at e) in cc (failed, same)
  | inr fine ↦ cc (rw (fine, h) at e)
]

-- `cleanq_destroy` never returns without an error on a queue of this backend.
pub destroy-crash :
    (callbacks : Callbacks Ipcq) (memory : ℕ → Memory) (fuel : ℕ) (acks : List ℕ) (q : IpcqQ)
    (pool : Fate)
    → cleanq_destroy (ipcq_backend callbacks memory fuel acks) q ≢ done (ok, pool)
unfolding cleanq_destroy
destroy-crash callbacks memory fuel acks q pool =
    destroy_end (region_pool_destroy q.pool) (call_destroy none q) pool refl
