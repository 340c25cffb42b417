-- ===== src/Chunks/Insert.antt =====
-- The writes of `insert_merge_buffer` of debug_queue.c on the list of chunks, one lemma for each of
-- the places where the new buffer can go.
use cleanq_linux.Base.{
  ℕ, ◌+◌, ◌<◌, ◌^◌, ◌≡◌, refl, Bool, false, Option, some, [], ◌∷◌, ◌++◌, done, Returns, arith, ◌==◌,
}
use cleanq_linux.Types.{u64}
use cleanq_linux.Slab.{SlabAllocator}
use cleanq_linux.Chunks.{Heap, Tracked, write, set_next, set_prev, new_ele}
use cleanq_linux.Chunks.Join.{ends_at, insert_behind, merge_before, extend_prev, insert_in_front}
use cleanq_linux.Chunks.Linked.{
  chunk, Chunks, first, last, has, Points, Linked, cons, not_null, load-done, not-has_of_none,
}
use cleanq_linux.Chunks.Carve.{u64_small}
use cleanq_linux.Chunks.Relink.{At, put_in, link_next-Open}
use cleanq_linux.Chunks.Edit.{Open-write, At-write, push_back, add_behind}
use cleanq_linux.Chunks.Split.{Becomes, Gives}

-- whether the last of the chunks ends at `v`
unfoldable pub ends : Chunks → ℕ → Bool
ends [] v = false
ends (c ∷ []) v = u64 (c.offset + c.length) == v
ends (c ∷ d ∷ ds) v = ends (d ∷ ds) v

pub ends_at-ends :
    {h : Heap} {stop prev : ℕ} (xs : Chunks) (v : ℕ)
    → Linked h stop prev xs
    → ends_at h (last 0 xs) v ≡ done (ends xs v)
unfolding ends_at ends
ends_at-ends [] v s = refl
ends_at-ends (c ∷ []) v (cons e out s) = rw (not_null e, load-done e)
ends_at-ends (c ∷ d ∷ ds) v (cons e out s) = ends_at-ends (d ∷ ds) v s

module _ {s : Tracked} {xs ys : Chunks} {p o l : ℕ} where
  pub extend_prev-Becomes :
      At s xs p o l ys
      → (length : ℕ) → 0 < length
      → l + length < 2 ^ 64
      → Returns (extend_prev s p length) (Becomes xs p ys s (xs ++ (chunk p o (l + length) ∷ ys)))
  unfolding extend_prev write
  extend_prev-Becomes a length pos fits =
      let some_byte : (length == 0) ≡ false = ground arith in
      rw (load-done (a.here), some_byte, u64_small fits)
        (_, refl, (put_in xs (At-write o (l + length) a), ground arith))

  -- no chunk ends where the buffer begins
  pub merge_before-alone :
      At s xs p o l ys
      → (offset length : ℕ) → l + length < 2 ^ 64
      → ends xs offset ≡ false
      → Returns
          (merge_before s p offset length)
          (Becomes xs p ys s (xs ++ (chunk p offset (l + length) ∷ ys)))
  unfolding merge_before write
  merge_before-alone a offset length fits apart =
      let written = At-write offset (l + length) a in
      rw (load-done (a.here), u64_small fits, ends_at-ends xs offset (written.around.front), apart)
        (_, refl, (put_in xs written, ground arith))

  pub insert_in_front-Becomes :
      (memory : Option ℕ) (b : ℕ) (alloc : SlabAllocator)
      → At s xs p o l ys
      → Gives memory s b alloc
      → (offset length : ℕ)
      → Returns
          (insert_in_front memory s p offset length)
          (Becomes xs p ys s (xs ++ (chunk b offset length ∷ chunk p o l ∷ ys)))
  unfolding insert_in_front new_ele write set_prev
  insert_in_front-Becomes memory b alloc a g offset length =
      let out_xs : has b xs ≡ false = not-has_of_none b (a.around.front) (g.unused) in
      let out_ys : has b ys ≡ false = not-has_of_none b (a.around.back) (g.unused) in
      let fresh : (b == p) ≡ false = ground (arith, a.here.holds, g.unused) in
      let opened =
        Open-write b
          (some (record { offset = offset; length = length; next = p; prev = last 0 xs })) alloc
          (a.around) out_xs out_ys in
      let (s2, run2, (open2, t)) = link_next-Open b xs opened in
      let still : Points s2.heap p o l (first ys 0) (last 0 xs) = record {
        ne_null = a.here.ne_null;
        holds = ground (arith, t.same p, a.here.holds, a.out_front);
      } in
      let open3 = Open-write p _ s2.alloc open2 (a.out_front) (a.out_back) in
      rw (load-done (a.here), g.run, run2, load-done still)
        (
          _,
          refl,
          (
            put_in xs (record {
              around =
                  push_back open3 (record { ne_null = a.here.ne_null; holds = ground arith })
                    (a.out_front) (a.out_back);
              here = record { ne_null = g.ne_null; holds = ground (arith, t.same b) };
              out_front = out_xs;
              out_back = ground arith;
            }),
            λ c e h out_xs out_p out_ys. ground (arith, t.same c),
          ),
        )

  pub insert_behind-Becomes :
      (memory : Option ℕ) (b : ℕ) (alloc : SlabAllocator)
      → At s xs p o l ys
      → Gives memory s b alloc
      → (offset length : ℕ)
      → Returns
          (insert_behind memory s p offset length)
          (Becomes xs p ys s (xs ++ (chunk p o l ∷ chunk b offset length ∷ ys)))
  unfolding insert_behind new_ele set_next write
  insert_behind-Becomes memory b alloc a g offset length =
      let fresh : (b == p) ≡ false = ground (arith, a.here.holds, g.unused) in
      let (s2, run2, (open2, spares)) =
        add_behind b offset length p alloc (a.around) (g.unused) (g.ne_null) in
      let out : has p (chunk b offset length ∷ ys) ≡ false = ground (arith, a.out_back) in
      let still : Points s2.heap p o l (first ys 0) (last 0 xs) = record {
        ne_null = a.here.ne_null;
        holds = spares p _ (a.here.holds) (a.out_back);
      } in
      rw (load-done (a.here), g.run, run2, load-done still)
        (
          _,
          refl,
          (
            put_in xs (record {
              around = Open-write p _ s2.alloc open2 (a.out_front) out;
              here = record { ne_null = a.here.ne_null; holds = ground arith };
              out_front = a.out_front;
              out_back = out;
            }),
            λ c e h out_xs out_p out_ys. ground (arith, spares c e),
          ),
        )
