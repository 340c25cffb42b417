-- ===== src/Cleanq/Guard.antt =====
-- What `cleanq_enqueue` and `cleanq_dequeue` (cleanq/queue_interface.c) let through, over any backend.
use cleanq_linux.Base.{
  ◌+◌, ◌^◌, ◌<◌, ◌≡◌, ◌∙◌, ◌⊎◌, inl, inr, ap, true, false, done, ◌>>=◌, Bool-cases,
}
use cleanq_linux.Types.{ok, invalid_buffer_args, Buf}
use cleanq_linux.RegionPool.{RegionPool}
use cleanq_linux.RegionPool.Invariant.{IsValid}
use cleanq_linux.RegionPool.Bounds.{InSlot, Within, Aliased, InSlot-cases, check_bounds-InSlot}
use cleanq_linux.Cleanq.{Cleanq, Backend, check_bounds, cleanq_enqueue, cleanq_dequeue}

-- No sum of the buffer's fields exceeds 64 bits.
pub record Fits (b : Buf) : Type 0 where
  pub buffer : b.length + b.offset < 2 ^ 64
  pub payload : b.valid_data + b.valid_length < 2 ^ 64

-- the buffer lies in the region in the slot of its id, and its valid part in the buffer
abbrev pub LiesInSlot : RegionPool → Buf → Type 0
LiesInSlot p b = InSlot p b.rid b.offset b.length b.valid_data b.valid_length

-- that region has the id of the buffer
abbrev pub Lies : RegionPool → Buf → Type 0
Lies p b = Within p b.rid b.offset b.length b.valid_data b.valid_length

-- That region has another id: none has the id of the buffer.
abbrev pub Strays : RegionPool → Buf → Type 0
Strays p b = Aliased p b.rid b.offset b.length b.valid_data b.valid_length

pub check-cases :
    (p : RegionPool) (b : Buf)
    → IsValid p
    → Fits b
    → (LiesInSlot p b × (check_bounds p b ≡ done true))
      ⊎ (¬ LiesInSlot p b × (check_bounds p b ≡ done false))
check-cases p b v f =
    let (valid, run, (to, from)) =
      check_bounds-InSlot p b.rid b.offset b.length b.valid_data b.valid_length v f.buffer
        f.payload in
    elim (Bool-cases valid) [
      | inl h ↦ inl (to h, run ∙ ap done h)
      | inr h ↦ inr ((λ w. cc (h, from w)), run ∙ ap done h)
    ]

module _ {S : Type 0} (f : Backend S) where
  pub cleanq_enqueue-cases :
      (q : Cleanq S) (b : Buf)
      → IsValid q.pool
      → Fits b
      → (LiesInSlot q.pool b × (cleanq_enqueue f q b ≡ f.enq q b))
        ⊎ (¬ LiesInSlot q.pool b × (cleanq_enqueue f q b ≡ done (invalid_buffer_args, q)))
  unfolding cleanq_enqueue
  cleanq_enqueue-cases q b v fits = elim (check-cases q.pool b v fits) [
    | inl (in_slot, run) ↦ inl (in_slot, rw run)
    | inr (not_in_slot, run) ↦ inr (not_in_slot, rw run)
  ]

  pub cleanq_dequeue-cases :
      (q q' : Cleanq S) (out b : Buf)
      → f.deq q out ≡ done (ok, b, q')
      → IsValid q'.pool
      → Fits b
      → (LiesInSlot q'.pool b × (cleanq_dequeue f q out ≡ done (ok, b, q')))
        ⊎ (¬ LiesInSlot q'.pool b × (cleanq_dequeue f q out ≡ done (invalid_buffer_args, b, q')))
  unfolding cleanq_dequeue
  cleanq_dequeue-cases q q' out b run v fits = elim (check-cases q'.pool b v fits) [
    | inl (in_slot, answer) ↦ inl (in_slot, rw (run, ◌>>=◌, answer))
    | inr (not_in_slot, answer) ↦ inr (not_in_slot, rw (run, ◌>>=◌, answer))
  ]

  -- `cleanq_enqueue` over a valid pool, of a buffer whose sums do not exceed 64 bits: a buffer
  -- that lies in the region of its id goes to the backend, and the result is the backend's. So
  -- does a buffer whose id no region has, if it lies in the region with another id that stands in
  -- the slot of its id. Any other buffer is refused with the error of invalid arguments, and the
  -- queue stays as it was.
  pub cleanq_enqueue-guard :
      (q : Cleanq S) (b : Buf)
      → IsValid q.pool
      → Fits b
      → (Lies q.pool b × (cleanq_enqueue f q b ≡ f.enq q b))
        ⊎ (Strays q.pool b × (cleanq_enqueue f q b ≡ f.enq q b))
        ⊎ (¬ Lies q.pool b
            × ¬ Strays q.pool b
            × (cleanq_enqueue f q b ≡ done (invalid_buffer_args, q)))
  cleanq_enqueue-guard q b v fits = elim (cleanq_enqueue-cases q b v fits) [
    | inl (here, run) ↦
        elim (InSlot-cases q.pool b.rid b.offset b.length b.valid_data b.valid_length here) [
          | inl lies ↦ inl (lies, run)
          | inr strays ↦ inr (inl (strays, run))
        ]
    | inr (out, run) ↦ inr (inr ((λ w. out w.slot), (λ a. out a.slot), run))
  ]

  -- When the backend's dequeue delivers a buffer whose sums do not exceed 64 bits and leaves a
  -- valid pool, `cleanq_dequeue` ends without an error exactly if the buffer lies in the region of
  -- its id, or no region has its id and it lies in the region with another id that stands in the
  -- slot of its id; otherwise it ends with the error of invalid arguments. Both ways the buffer
  -- has left the backend, and is in the caller's variables.
  pub cleanq_dequeue-guard :
      (q q' : Cleanq S) (out b : Buf)
      → f.deq q out ≡ done (ok, b, q')
      → IsValid q'.pool
      → Fits b
      → (Lies q'.pool b × (cleanq_dequeue f q out ≡ done (ok, b, q')))
        ⊎ (Strays q'.pool b × (cleanq_dequeue f q out ≡ done (ok, b, q')))
        ⊎ (¬ Lies q'.pool b
            × ¬ Strays q'.pool b
            × (cleanq_dequeue f q out ≡ done (invalid_buffer_args, b, q')))
  cleanq_dequeue-guard q q' out b run v fits = elim (cleanq_dequeue-cases q q' out b run v fits) [
    | inl (here, end) ↦
        elim (InSlot-cases q'.pool b.rid b.offset b.length b.valid_data b.valid_length here) [
          | inl lies ↦ inl (lies, end)
          | inr strays ↦ inr (inl (strays, end))
        ]
    | inr (not_here, end) ↦ inr (inr ((λ w. not_here w.slot), (λ a. not_here a.slot), end))
  ]
