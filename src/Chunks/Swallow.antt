-- ===== src/Chunks/Swallow.antt =====
-- `insert_merge_buffer` of debug_queue.c between two chunks that the buffer joins.
use cleanq_linux.Base.{
  ℕ, ◌+◌, ◌<◌, ◌^◌, ◌≡◌, refl, true, false, none, some, ◌∷◌, ◌++◌, done, Returns, arith, ◌==◌,
}
use cleanq_linux.Types.{u64}
use cleanq_linux.Slab.{SlabAllocator, slab_free}
use cleanq_linux.Chunks.{MemoryEle, Tracked, write, free_ele}
use cleanq_linux.Chunks.Join.{ends_at, swallow_self, merge_before}
use cleanq_linux.Chunks.Linked.{
  chunk, Chunks, first, last, has, cons, not_null, load-done, frame-write,
}
use cleanq_linux.Chunks.Carve.{u64_small}
use cleanq_linux.Chunks.Relink.{Open, At, put_in, link_prev-Open}
use cleanq_linux.Chunks.Edit.{Open-write}
use cleanq_linux.Chunks.Split.{Becomes}

module _ {s : Tracked} {xs ys : Chunks} {pd od ld p o l : ℕ}
    (a : At s xs pd od ld (chunk p o l ∷ ys)) where
  -- `p` is merged into the chunk before it
  swallow_self-Becomes :
      (alloc : SlabAllocator)
      → slab_free s.alloc (some p) ≡ done alloc
      → ld + l < 2 ^ 64
      → Returns
          (swallow_self s p)
          (Becomes xs pd (chunk p o l ∷ ys) s (xs ++ (chunk pd od (ld + l) ∷ ys)))
  unfolding swallow_self free_ele write
  swallow_self-Becomes alloc freed fits = elim (a.around.back) [
    | cons e out back ↦
        let opened : Open s xs pd p ys = record {
          start = a.around.start;
          front = a.around.front;
          back = back;
          apart = λ b i. ground (arith, a.around.apart b);
        } in
        let (s2, run2, (open2, t)) = link_prev-Open pd ys (
          Open-write pd
            (some (record { offset = od; length = ld + l; next = first ys 0; prev = last 0 xs }))
            s.alloc opened (a.out_front) (ground (arith, a.out_back))) in
        let alloc_same : s2.alloc ≡ s.alloc = t.alloc in
        let out_xs : has p xs ≡ false = ground (arith, a.around.apart p) in
        rw (load-done e, load-done (a.here), u64_small fits, run2, alloc_same, freed)
          (
            _,
            refl,
            (
              put_in xs (record {
                around = Open-write p none alloc open2 out_xs out;
                here = record {
                  ne_null = a.here.ne_null;
                  holds = ground (arith, t.same pd, a.out_back);
                };
                out_front = a.out_front;
                out_back = ground (arith, a.out_back);
              }),
              λ b x h out_xs out_pd out_ys. ground (arith, t.same b),
            ),
          )
  ]

module _ {s : Tracked} {xs ys : Chunks} {pd od ld p o l : ℕ}
    (a : At s xs pd od ld (chunk p o l ∷ ys)) where
  -- the chunk at `p`, extended to begin at `offset`, is merged into the one before it
  pub merge_before-both :
      (alloc : SlabAllocator)
      → slab_free s.alloc (some p) ≡ done alloc
      → (offset length : ℕ) → u64 (od + ld) ≡ offset
      → ld + (l + length) < 2 ^ 64
      → Returns
          (merge_before s p offset length)
          (Becomes xs pd (chunk p o l ∷ ys) s (xs ++ (chunk pd od (ld + (l + length)) ∷ ys)))
  unfolding merge_before write ends_at
  merge_before-both alloc freed offset length meets fits = elim (a.around.back) [
    | cons e out back ↦
        let longer : MemoryEle = record {
          offset = offset;
          length = l + length;
          next = first ys 0;
          prev = pd;
        } in
        let out_xs : has p xs ≡ false = ground (arith, a.around.apart p) in
        let written : At (record s { heap = write s.heap p (some longer) }) xs pd od ld
            (chunk p offset (l + length) ∷ ys) =
          record {
            around = record {
              start = a.around.start;
              front = frame-write p _ (a.around.front) out_xs;
              back =
                  cons (record { ne_null = e.ne_null; holds = ground arith }) out
                    (frame-write p _ back out);
              apart = a.around.apart;
            };
            here = record {
              ne_null = a.here.ne_null;
              holds = ground (arith, a.out_back, a.here.holds);
            };
            out_front = a.out_front;
            out_back = a.out_back;
          } in
        let (s', run, (holds, spares)) = swallow_self-Becomes written alloc freed fits in
        let ends_here : (u64 (od + ld) == offset) ≡ true = ground arith in
        let shorter : l + length < 2 ^ 64 = omega arith in
        rw
          (
            load-done e,
            u64_small shorter,
            not_null (a.here),
            load-done (written.here),
            ends_here,
            run,
          )
          (
            s',
            refl,
            (holds, λ b x h out_xs out_pd out_ys. spares b x (ground arith) out_xs out_pd out_ys),
          )
  ]
