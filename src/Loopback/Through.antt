-- ===== src/Loopback/Through.antt =====
-- A buffer's way through cleanq/queue_interface.c and the loopback backend.
use cleanq_linux.Base.{
  ◌≡◌, refl, sym, ◌∙◌, ap, ap₂, inl, inr, List, [], ◌∷◌, ◌++◌, some, done, length, ◌==◌, false, ◌<◌,
  arith,
}
use mathlib.Core.Path.{subst}
use cleanq_linux.Types.{ok, Buf}
use cleanq_linux.Fifo
use cleanq_linux.RegionPool.Invariant as Pool
use cleanq_linux.Cleanq.{cleanq_enqueue, cleanq_dequeue}
use cleanq_linux.Cleanq.Guard.{Fits, LiesInSlot, cleanq_enqueue-cases, cleanq_dequeue-cases}
use cleanq_linux.Loopback.{
  LoopbackQ, loopback_backend, loopback_enqueue, loopback_dequeue, loopback_queue_size,
}
use cleanq_linux.Loopback.Refine.{
  IsValid, contents, loopback_enqueue_refines, loopback_dequeue_refines,
}

push_room :
    (l : List Buf) (b : Buf)
    → length l < loopback_queue_size
    → Fifo.push loopback_queue_size l b ≡ (ok, l ++ (b ∷ []))
unfolding Fifo.push
push_room l b h = let room : length l == loopback_queue_size ≡ false = ground arith in rw room

-- the oldest of some buffers and one more
abbrev pub oldest : List Buf → Buf → Buf
oldest [] b = b
oldest (x ∷ l) b = x

abbrev pub others : List Buf → Buf → List Buf
others [] b = []
others (x ∷ l) b = l ++ (b ∷ [])

pop_cons : (l : List Buf) (b : Buf) → Fifo.pop (l ++ (b ∷ [])) ≡ (ok, some (oldest l b), others l b)
unfolding Fifo.pop
pop_cons [] b = refl
pop_cons (x ∷ l) b = refl

let_in :
    (q : LoopbackQ) (b : Buf)
    → Pool.IsValid q.pool
    → Fits b
    → LiesInSlot q.pool b
    → cleanq_enqueue loopback_backend q b ≡ loopback_enqueue q b
let_in q b v fits lies = elim (cleanq_enqueue-cases loopback_backend q b v fits) [
  | inl (here, run) ↦ run
  | inr (out, run) ↦ absurd (out lies)
]

let_out :
    (q q' : LoopbackQ) (out b : Buf)
    → loopback_dequeue q out ≡ done (ok, b, q')
    → Pool.IsValid q'.pool
    → Fits b
    → LiesInSlot q'.pool b
    → cleanq_dequeue loopback_backend q out ≡ done (ok, b, q')
let_out q q' out b deq v fits lies =
    elim (cleanq_dequeue-cases loopback_backend q q' out b deq v fits) [
      | inl (here, run) ↦ run
      | inr (outside, run) ↦ absurd (outside lies)
    ]

-- A valid loopback queue over a valid pool that holds fewer than 64 buffers takes a buffer that
-- lies in the region that stands in the slot of its id, and then gives back the oldest buffer that
-- it holds, if that lies in the region in the slot of its id too, and no sum of the two buffers'
-- fields exceeds 64 bits: both calls end with no error, and the buffers that are left keep their
-- order. The backend's part stays valid, and neither call changes the region pool.
pub cleanq_enqueue-dequeue :
    (q : LoopbackQ) (b out : Buf)
    → IsValid q.own
    → Pool.IsValid q.pool
    → length (contents q.own) < loopback_queue_size
    → Fits b
    → LiesInSlot q.pool b
    → Fits (oldest (contents q.own) b)
    → LiesInSlot q.pool (oldest (contents q.own) b)
    → (q' q'' : LoopbackQ) × (cleanq_enqueue loopback_backend q b ≡ done (ok, q'))
      × (cleanq_dequeue loopback_backend q' out ≡ done (ok, oldest (contents q.own) b, q''))
      × (contents q''.own ≡ others (contents q.own) b)
      × IsValid q''.own
      × (q''.pool ≡ q.pool)
cleanq_enqueue-dequeue q b out v pv room fits lies fits' lies' =
    let l = contents q.own in
    let ((err, q'), run, (kept, fifo)) = loopback_enqueue_refines q b v in
    let pushed = fifo ∙ push_room l b room in
    let ((err', b', q''), run', (kept', got)) = loopback_dequeue_refines q' out kept.valid in
    let popped = ap Fifo.pop (ap (λ r. r.1) pushed) ∙ pop_cons l b in
    let pool' : q'.pool ≡ q.pool = ap (λ x. x.pool) kept.rest in
    let pool'' : q''.pool ≡ q.pool = ap (λ x. x.pool) kept'.rest ∙ pool' in
    let old = oldest l b in
    let deq : loopback_dequeue q' out ≡ done (ok, old, q'') =
      run'
      ∙ ap₂ (λ e x. done (e, x, q'')) (got.0 ∙ ap (λ r. r.0) popped)
          (got.1 ∙ ap (λ r. Fifo.delivered out r.1) popped) in
    (
      q',
      q'',
      let_in q b pv fits lies ∙ run ∙ ap (λ e. done (e, q')) (ap (λ r. r.0) pushed),
      let_out q' q'' out old deq (subst Pool.IsValid (sym pool'') pv) fits'
          (subst (λ p. LiesInSlot p old) (sym pool'') lies'),
      got.2 ∙ ap (λ r. r.2) popped,
      kept'.valid,
      pool'',
    )
