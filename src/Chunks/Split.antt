-- ===== src/Chunks/Split.antt =====
-- `remove_split_buffer` of debug_queue.c on the list of chunks.
use cleanq_linux.Base.{
  ℕ, ◌+◌, ◌-◌, ◌<◌, ◌≡◌, refl, ◌≢◌, inl, inr, false, Option, none, some, ◌∷◌, ◌++◌, done, Returns,
  arith, ◌==◌, Bool-cases,
}
use cleanq_linux.Types.{u64}
use cleanq_linux.Slab.{SlabAllocator, slab_alloc, slab_free}
use cleanq_linux.Chunks.{
  MemoryEle, Tracked, sub64, write, free_ele, new_ele, unlink, cut_beginning, cut_end, cut_middle,
  remove_split_buffer,
}
use cleanq_linux.Chunks.Linked.{chunk, Chunks, first, last, has, load-done}
use cleanq_linux.Chunks.Carve.{
  Inside, u64_small, carve, carve_all, carve_beginning, carve_end, carve_middle,
}
use cleanq_linux.Chunks.Relink.{Holds, At, take_out, put_in, close, link_next-Open, link_prev-Open}
use cleanq_linux.Chunks.Edit.{Spares, Open-write, At-write, add_behind}

-- the list is `cs`, and what is neither in `xs` or `ys` nor at `p` is as it was in `s`
abbrev pub Becomes : Chunks → ℕ → Chunks → Tracked → Chunks → Tracked → Type 0
Becomes xs p ys s cs s' = Holds s' cs × Spares xs p ys s s'

module _ {s : Tracked} {xs ys : Chunks} {p o l : ℕ} (alloc : SlabAllocator) where
  pub unlink-Becomes :
      At s xs p o l ys
      → slab_free s.alloc (some p) ≡ done alloc
      → Returns (unlink s p) (Becomes xs p ys s (xs ++ ys))
  unfolding unlink free_ele write
  unlink-Becomes a freed =
      let (s1, run1, (open1, t1)) = link_next-Open (first ys 0) xs (a.around) in
      let (s2, run2, (open2, t2)) = link_prev-Open (last 0 xs) ys open1 in
      let alloc_same : s2.alloc ≡ s.alloc = cc in
      rw (load-done (a.here), run1, run2, alloc_same, freed)
        (
          _,
          refl,
          (
            close xs (Open-write p none alloc open2 (a.out_front) (a.out_back)),
            λ b e h out_xs out_p out_ys. ground (arith, t1.same b, t2.same b),
          ),
        )

pub Spares-write :
    (xs ys : Chunks) (p : ℕ) (s : Tracked) (e : Option MemoryEle) (s' : Tracked)
    → Spares xs p ys (record s { heap = write s.heap p e }) s'
    → Spares xs p ys s s'
unfolding write
Spares-write xs ys p s e s' sp a x h out_xs out_p out_ys = sp a x (ground arith) out_xs out_p out_ys

module _ {s : Tracked} {xs ys : Chunks} {p o l : ℕ} (alloc : SlabAllocator) where
  cut_beginning-Becomes :
      At s xs p o l ys
      → (offset length : ℕ) → Inside o l offset length
      → offset ≡ o
      → (length ≡ l → slab_free s.alloc (some p) ≡ done alloc)
      → (b : ℕ)
      → Returns
          (cut_beginning s p length)
          (Becomes xs p ys s (xs ++ (carve p o l offset length b ++ ys)))
  unfolding cut_beginning write
  cut_beginning-Becomes a offset length i same freed b =
      let end : u64 (o + length) ≡ o + length = omega (arith, i.to, i.range) in
      let rest : sub64 l length ≡ l - length = omega (arith, i.to, i.range) in
      let written = At-write (o + length) (l - length) a in
      elim (Bool-cases (l - length == 0)) [
        | inl all ↦
            let (s', run, (holds, spares)) =
              unlink-Becomes alloc written (freed (ground (arith, i.to))) in
            rw
              (
                load-done (a.here),
                end,
                rest,
                all,
                carve_all p o l offset length b same (ground (arith, i.to)),
              )
              (s', run, (holds, Spares-write xs ys p s _ s' spares))
        | inr part ↦
            rw
              (
                load-done (a.here),
                end,
                rest,
                part,
                carve_beginning p o l offset length b same (ground (arith, i.to)),
              )
              (_, refl, (put_in xs written, ground arith))
      ]

  cut_end-Becomes :
      At s xs p o l ys
      → (offset length : ℕ) → Inside o l offset length
      → o < offset
      → offset + length ≡ o + l
      → (b : ℕ)
      → Returns (cut_end s p length) (Becomes xs p ys s (xs ++ (carve p o l offset length b ++ ys)))
  unfolding cut_end write
  cut_end-Becomes a offset length i later end b =
      let rest : sub64 l length ≡ l - length = omega (arith, i.range) in
      let some_left : (l - length == 0) ≡ false = ground (arith, i.some_byte) in
      rw (load-done (a.here), rest, some_left, carve_end p o l offset length b later end)
        (_, refl, (put_in xs (At-write o (l - length) a), ground arith))

-- what the code asks of the allocator: a block that no element stands at
pub record Gives (memory : Option ℕ) (s : Tracked) (b : ℕ) (alloc : SlabAllocator) : Type 0 where
  pub run : slab_alloc memory s.alloc ≡ done (some b, alloc)
  pub unused : s.heap b ≡ none
  pub ne_null : b ≢ 0

module _ {s : Tracked} {xs ys : Chunks} {p o l : ℕ} (memory : Option ℕ) where
  cut_middle-Becomes :
      (b : ℕ) (alloc : SlabAllocator)
      → At s xs p o l ys
      → Gives memory s b alloc
      → (offset length : ℕ) → Inside o l offset length
      → o < offset
      → offset + length < o + l
      → Returns
          (cut_middle memory s p offset length)
          (Becomes xs p ys s (xs ++ (carve p o l offset length b ++ ys)))
  unfolding cut_middle new_ele write
  cut_middle-Becomes b alloc a g offset length i later more =
      let before : sub64 offset o ≡ offset - o = omega (arith, i.range) in
      let end : u64 (o + (offset - o) + length) ≡ offset + length = omega (arith, i.range) in
      let rest : sub64 (sub64 l (offset - o)) length ≡ o + l - (offset + length) =
        omega (arith, i.range) in
      let fresh : (b == p) ≡ false = ground (arith, a.here.holds, g.unused) in
      let (s2, run2, (open2, spares)) =
        add_behind b (offset + length) (o + l - (offset + length)) p alloc (a.around) (g.unused)
          (g.ne_null) in
      let out : has p (chunk b (offset + length) (o + l - (offset + length)) ∷ ys) ≡ false =
        ground (arith, a.out_back) in
      rw
        (
          load-done (a.here),
          before,
          g.run,
          end,
          rest,
          run2,
          carve_middle p o l offset length b later more,
        )
        (
          _,
          refl,
          (
            put_in xs (record {
              around = Open-write p _ s2.alloc open2 (a.out_front) out;
              here = record { ne_null = a.here.ne_null; holds = ground arith };
              out_front = a.out_front;
              out_back = out;
            }),
            λ c e h out_xs out_p out_ys. ground (arith, spares c e),
          ),
        )

-- `remove_split_buffer`, on an element that contains the buffer, in 64 bits, ends and leaves a
-- well-linked list: the element is replaced by what is left of it before and behind the buffer,
-- the rest of the list and every element outside it are as they were. It is assumed that the
-- allocator has an unused block where the element has to be split, and takes the element's
-- block back where nothing is left of it.
pub remove_split_buffer-Becomes :
    {s : Tracked} (p o l : ℕ) (memory : Option ℕ) (b : ℕ) (alloc alloc' : SlabAllocator)
    (xs ys : Chunks)
    → Holds s (xs ++ chunk p o l ∷ ys)
    → (offset length : ℕ) → Inside o l offset length
    → (o < offset → offset + length < o + l → Gives memory s b alloc)
    → (offset ≡ o → length ≡ l → slab_free s.alloc (some p) ≡ done alloc')
    → Returns
        (remove_split_buffer memory s p offset length)
        (Becomes xs p ys s (xs ++ (carve p o l offset length b ++ ys)))
unfolding remove_split_buffer
remove_split_buffer-Becomes p o l memory b alloc alloc' xs ys holds offset length i gives freed =
    let a = take_out xs holds in
    let end : u64 (o + l) ≡ o + l = u64_small (i.range) in
    let end' : u64 (offset + length) ≡ offset + length = u64_small (omega (arith, i.to, i.range)) in
    elim (Bool-cases (o == offset)) [
      | inl same ↦
          rw (load-done (a.here), same)
            (cut_beginning-Becomes alloc' a offset length i (ground arith) (freed (ground arith)) b)
      | inr other ↦ elim (Bool-cases (o + l == offset + length)) [
        | inl same ↦
            rw (load-done (a.here), other, end, end', same)
              (cut_end-Becomes alloc a offset length i (ground (arith, i.from)) (ground arith) b)
        | inr middle ↦
            let later : o < offset = ground (arith, i.from) in
            let more : offset + length < o + l = ground (arith, i.to) in
            rw (load-done (a.here), other, end, end', middle)
              (cut_middle-Becomes memory b alloc a (gives later more) offset length i later more)
      ]
    ]
