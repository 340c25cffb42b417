-- ===== src/Shared/Acquire.antt =====
-- What a creation function over shared memory has to give back: the calls in order, each with what
-- it acquires, up to the first that fails.
use cleanq_linux.Base.{
  ℕ, Bool, true, false, not, ◌&&◌, ◌||◌, Option, none, some, List, [], ◌∷◌, ◌≡◌, ◌≢◌,
}
use cleanq_linux.Types.{ok}
use cleanq_linux.Shared.{System, Resource, queue_memory, queue_name, shm_object, mapping, Creation}

-- whether the call succeeds, and what it acquires then
abbrev pub Attempt : Type 0
Attempt = Bool × Option Resource

abbrev pub is_some : Option ℕ → Bool
is_some none = false
is_some (some a) = true

abbrev pub attempts : System → List Attempt
attempts os =
    (os.calloc_ok, some queue_memory)
    ∷ (is_some os.strdup, some queue_name)
    ∷ (os.exclusive_ok || os.open_ok, some shm_object)
    ∷ (not os.exclusive_ok || os.truncate_ok, none)
    ∷ (is_some os.mapped, some mapping)
    ∷ (os.pool_ok && os.slots_ok, none)
    ∷ []

-- whether all calls succeed, and what is held, latest first, when all are done or the first fails
abbrev pub acquire : List Attempt → List Resource → Bool × List Resource
acquire [] held = (true, held)
acquire ((false, r) ∷ calls) held = (false, held)
acquire ((true, none) ∷ calls) held = acquire calls held
acquire ((true, some r) ∷ calls) held = acquire calls (r ∷ held)

-- A success returns a queue and releases nothing. A failure returns an error, and no queue, and
-- releases what is held, the latest first.
abbrev pub Outcome : {S : Type 0} → Bool × List Resource → Creation S → Type 0
Outcome (true, held) c = (c.err ≡ ok) × (c.queue ≢ none) × (c.released ≡ [])
Outcome (false, held) c = (c.err ≢ ok) × (c.queue ≡ none) × (c.released ≡ held)

-- whether the calls come to `shm_open`, and one of its two calls succeeds
abbrev pub shm_opens : System → Bool
shm_opens os = os.calloc_ok && is_some os.strdup && (os.exclusive_ok || os.open_ok)

-- The outcome is that of the calls, but the descriptor of `shm_open` stays open.
abbrev pub LeavesDescriptor : {S : Type 0} → System → Creation S → Type 0
LeavesDescriptor os c = Outcome (acquire (attempts os) []) c × (c.descriptor ≡ shm_opens os)
