-- ===== src/Loopback/Refine.antt =====
-- The operations of cleanq/backends/loopback/loopback_queue.c against the bounded queue of the
-- buffers that are in the array.
use cleanq_linux.Base.{
  ℕ, suc, ◌+◌, ◌-◌, ◌%◌, ◌≤◌, ◌<◌, ◌≡◌, refl, ap, ap₂, ◌∙◌, ◌≢◌, inl, inr, true, List, [], ◌∷◌,
  ◌++◌, length, get_elem?, length-set, get_elem?-set_self, get_elem?-set_ne, get_elem?-of_lt,
  Option, none, some, Returns, arith, ltb, ◌==◌, Bool-cases,
}
use cleanq_linux.Types.{u64, ok, queue_empty, queue_full, Buf}
use cleanq_linux.Fifo
use cleanq_linux.Loopback.{
  Loopback, LoopbackQ, loopback_queue_size, zero_buf, push, pop, loopback_enqueue, loopback_dequeue,
}

-- the entry at an index, a cleared one outside the array
abbrev pub entry : Option Buf → Buf
entry none = zero_buf
entry (some b) = b

-- the entry at a position, which goes round at 64
abbrev pub entry_at : List Buf → ℕ → Buf
entry_at queue k = entry (get_elem? queue (k % 64))

-- the buffers that are in the queue, oldest first
abbrev pub contents : Loopback → List Buf
contents lq = Fifo.window (entry_at lq.queue) lq.tail lq.num_ele

pub record IsValid (lq : Loopback) : Type 0 where
  pub storage : length lq.queue ≡ 64
  pub tail_in : lq.tail < 64
  pub count_in : lq.num_ele ≤ 64
  pub head_at : lq.head ≡ (lq.tail + lq.num_ele) % 64

push-IsValid : (lq : Loopback) (b : Buf) → IsValid lq → lq.num_ele ≢ 64 → IsValid (push lq b)
unfolding push
push-IsValid lq b v ne = omega (arith, length-set lq.queue lq.head b)

pop-IsValid : (lq : Loopback) → IsValid lq → lq.num_ele ≢ 0 → IsValid (pop lq)
unfolding pop
pop-IsValid lq v ne = omega arith

-- A write at the head changes none of the buffers that are in the queue.
entry_at-push :
    (lq : Loopback) (b : Buf) (k : ℕ)
    → IsValid lq
    → lq.num_ele < 64
    → k < lq.num_ele
    → entry_at (push lq b).queue (lq.tail + k) ≡ entry_at lq.queue (lq.tail + k)
unfolding push
entry_at-push lq b k v room lt =
    ap entry (get_elem?-set_ne lq.queue lq.head ((lq.tail + k) % 64) b (omega arith))

contents-push :
    (lq : Loopback) (b : Buf)
    → IsValid lq
    → lq.num_ele ≢ 64
    → contents (push lq b) ≡ contents lq ++ (b ∷ [])
unfolding push
contents-push lq b v ne =
    let room : lq.num_ele < 64 = omega arith in
    let one_more : u64 (lq.num_ele + 1) ≡ suc lq.num_ele = omega arith in
    let at = entry_at (push lq b).queue in
    rw one_more (
      Fifo.window_snoc at lq.tail lq.num_ele
      ∙ ap₂ (λ l x. l ++ (x ∷ []))
          (Fifo.window_congr at (entry_at lq.queue) lq.tail lq.tail lq.num_ele
            (λ k lt. entry_at-push lq b k v room lt))
          (rw (← v.head_at) (ap entry (get_elem?-set_self lq.queue lq.head b (omega arith)))))

contents-pop :
    (lq : Loopback)
    → IsValid lq
    → lq.num_ele ≢ 0
    → contents lq ≡ entry_at lq.queue lq.tail ∷ contents (pop lq)
unfolding pop
contents-pop lq v ne =
    let one_less : lq.num_ele ≡ suc (lq.num_ele - 1) = omega arith in
    ap (Fifo.window (entry_at lq.queue) lq.tail) one_less
    ∙ ap (λ l. entry_at lq.queue lq.tail ∷ l)
        (Fifo.window_congr (entry_at lq.queue) (entry_at lq.queue) (lq.tail + 1)
          (u64 (lq.tail + 1) % 64) (lq.num_ele - 1)
          (λ k lt. ap (λ i. entry (get_elem? lq.queue i)) (omega arith)))

-- what an enqueue or a dequeue leaves: a valid queue, and all but the backend's own part as it was
pub record Keeps (q q' : LoopbackQ) : Type 0 where
  pub valid : IsValid q'.own
  pub rest : q' ≡ record q { own = q'.own }

-- `loopback_enqueue` on a valid queue ends, without a store outside the array. It returns the error
-- of the bounded queue of 64 buffers, leaves the queue holding what that queue holds, keeps the
-- queue valid, and changes nothing but the backend's own part.
pub loopback_enqueue_refines :
    (q : LoopbackQ) (b : Buf)
    → IsValid q.own
    → Returns (loopback_enqueue q b) λ r.
      Keeps q r.1 × ((r.0, contents r.1.own) ≡ Fifo.push loopback_queue_size (contents q.own) b)
unfolding loopback_enqueue Fifo.push
loopback_enqueue_refines q b v =
    let full = Fifo.length-window (entry_at q.own.queue) q.own.tail q.own.num_ele in
    elim (Bool-cases (q.own.num_ele == loopback_queue_size)) [
      | inl e ↦ ((queue_full, q), rw e, (record { valid = v; rest = refl }, rw (full, e)))
      | inr e ↦
          let ne : q.own.num_ele ≢ 64 = ground arith in
          let inside : ltb q.own.head (length q.own.queue) ≡ true =
            ground (arith, v.storage, v.head_at) in
          (
            (ok, record q { own = push q.own b }),
            rw (e, inside),
            (
              record { valid = push-IsValid q.own b v ne; rest = refl },
              rw (full, e, contents-push q.own b v ne),
            ),
          )
    ]

-- `loopback_dequeue` on a valid queue ends, without a load outside the array. It returns the error
-- of the first-in, first-out queue of its contents, delivers the oldest buffer or leaves the
-- caller's variables alone, leaves the queue holding the rest, keeps the queue valid, and changes
-- nothing but the backend's own part.
pub loopback_dequeue_refines :
    (q : LoopbackQ) (out : Buf)
    → IsValid q.own
    → Returns (loopback_dequeue q out) λ r.
      Keeps q r.2
      × (let (err, b, rest) = Fifo.pop (contents q.own) in
          (r.0 ≡ err) × (r.1 ≡ Fifo.delivered out b) × (contents r.2.own ≡ rest))
unfolding loopback_dequeue Fifo.pop
loopback_dequeue_refines q out v = elim (Bool-cases (q.own.num_ele == 0)) [
  | inl e ↦
      let empty : q.own.num_ele ≡ 0 = ground arith in
      let nothing : contents q.own ≡ [] =
        ap (Fifo.window (entry_at q.own.queue) q.own.tail) empty in
      (
        (queue_empty, out, q),
        rw e,
        (record { valid = v; rest = refl }, rw nothing (refl, refl, refl)),
      )
  | inr e ↦
      let ne : q.own.num_ele ≢ 0 = ground arith in
      let (b, found) =
        get_elem?-of_lt q.own.queue q.own.tail (omega (arith, v.storage, v.tail_in)) in
      let here : q.own.tail % 64 ≡ q.own.tail = omega (arith, v.tail_in) in
      (
        (ok, b, record q { own = pop q.own }),
        rw (e, found),
        (
          record { valid = pop-IsValid q.own v ne; rest = refl },
          rw (contents-pop q.own v ne, here, found) (refl, refl, refl),
        ),
      )
]
