-- ===== src/Debug/Walk.antt =====
-- The walks of debug_queue.c along the list of chunks end, given fuel for its length, and find what
-- they look for.
use cleanq_linux.Base.{
  ℕ, zero, suc, ◌+◌, ◌<◌, ◌≤◌, ◌^◌, ◌≡◌, refl, ap, ◌⊎◌, inl, inr, true, false, Option, none, some,
  [], ◌∷◌, ◌++◌, done, Returns, arith, leb, length, ◌==◌, if◌then◌else◌, Bool-cases,
}
use cleanq_linux.Chunks.{MemoryEle, Heap, load, buffer_in_bounds}
use cleanq_linux.Chunks.Linked.{Chunk, chunk, Chunks, first, Linked, cons, not_null, load-done}
use cleanq_linux.Chunks.Owns.{covers, owns, Sorted, end, end-le, Sorted-append}
use cleanq_linux.Chunks.Carve.{Inside, buffer_in_bounds_iff}
use cleanq_linux.Debug.{dump_list, find_chunk, find_place}

-- the address of the first chunk that contains the buffer by the code's test
unfoldable pub holder : Chunks → ℕ → ℕ → Option ℕ
holder [] offset length = none
holder (c ∷ cs) offset length =
    if buffer_in_bounds offset length c.offset c.length
    then some c.addr
    else holder cs offset length

pub find_chunk-holder :
    (fuel : ℕ) {h : Heap} {prev : ℕ} (cs : Chunks) (o l : ℕ)
    → Linked h 0 prev cs
    → length cs ≤ fuel
    → find_chunk fuel h (first cs 0) o l ≡ done (holder cs o l)
unfolding find_chunk holder
find_chunk-holder zero [] o l s enough = refl
find_chunk-holder zero (c ∷ cs) o l s enough = absurd (omega arith)
find_chunk-holder (suc k) [] o l s enough = refl
find_chunk-holder (suc k) (c ∷ cs) o l (cons e out s) enough =
    elim (Bool-cases (buffer_in_bounds o l c.offset c.length)) [
      | inl inside ↦ rw (not_null e, load-done e, inside)
      | inr outside ↦
          rw (not_null e, load-done e, outside) (find_chunk-holder k cs o l s (omega arith))
    ]

-- `dump_list` of a list whose first element points back to nothing or to an element
dump_list-tail :
    (fuel : ℕ) {h : Heap} {prev : ℕ} (cs : Chunks)
    → Linked h 0 prev cs
    → length cs ≤ fuel
    → (prev ≡ 0) ⊎ ((q : MemoryEle) × ((prev == 0) ≡ false) × (load h prev ≡ done q))
    → Returns (dump_list fuel h (first cs 0)) λ lines. length lines ≡ length cs
unfolding dump_list
dump_list-tail zero [] s enough before = ([], refl, refl)
dump_list-tail zero (c ∷ cs) s enough before = absurd (omega arith)
dump_list-tail (suc k) [] s enough before = ([], refl, refl)
dump_list-tail (suc k) {prev = prev} (c ∷ cs) (cons e out s) enough before =
    let (lines, run, count) =
      dump_list-tail k cs s (omega arith) (inr (_, not_null e, load-done e)) in
    elim before [
      | inl nothing ↦
          let null : (prev == 0) ≡ true = ground arith in
          rw (not_null e, load-done e, null, run) (_, refl, omega (arith, count))
      | inr (q, some_prev, there) ↦
          rw (not_null e, load-done e, some_prev, there, run) (_, refl, omega (arith, count))
    ]

pub dump_list-done :
    (fuel : ℕ) {h : Heap} (cs : Chunks)
    → Linked h 0 0 cs
    → length cs ≤ fuel
    → Returns (dump_list fuel h (first cs 0)) λ lines. length lines ≡ length cs
dump_list-done fuel cs s enough = dump_list-tail fuel cs s enough (inl refl)

-- every chunk begins at `offset` or before
unfoldable pub Starts : ℕ → Chunks → Type 0
Starts offset [] = Unit {0}
Starts offset (c ∷ cs) = (c.offset ≤ offset) × Starts offset cs

-- where a buffer from `offset` is put: the chunks before the place begin at `offset` or before, the
-- chunk at the place is the last one or begins behind `offset`
pub record Stops (h : Heap) (fuel : ℕ) (cs : Chunks) (offset : ℕ) : Type 0 where
  pub before : Chunks
  pub here : Chunk
  pub after : Chunks
  pub same : cs ≡ before ++ here ∷ after
  pub run : find_place fuel h (first cs 0) offset ≡ done here.addr
  pub earlier : Starts offset before
  pub later : (after ≡ []) ⊎ (offset < here.offset)

pub find_place-Stops :
    (fuel : ℕ) {h : Heap} {prev : ℕ} (c : Chunk) (cs : Chunks) (offset : ℕ)
    → Linked h 0 prev (c ∷ cs)
    → length (c ∷ cs) ≤ fuel
    → Stops h fuel (c ∷ cs) offset
unfolding find_place Starts
find_place-Stops zero c cs offset s enough = absurd (omega arith)
find_place-Stops (suc k) c [] offset (cons e out s) enough = record {
  before = [];
  here = c;
  after = [];
  same = refl;
  run = rw (load-done e);
  earlier = tt;
  later = inl refl;
}
find_place-Stops (suc k) c (d ∷ ds) offset (cons e out (cons e' out' s)) enough =
    elim (Bool-cases (leb c.offset offset)) [
      | inl passed ↦
          let next = find_place-Stops k d ds offset (cons e' out' s) (omega arith) in
          record {
            before = c ∷ next.before;
            here = next.here;
            after = next.after;
            same = ap (λ t. c ∷ t) (next.same);
            run = rw (load-done e, not_null e', passed) (next.run);
            earlier = (ground arith, next.earlier);
            later = next.later;
          }
      | inr stops ↦ record {
        before = [];
        here = c;
        after = d ∷ ds;
        same = refl;
        run = rw (load-done e, not_null e', stops);
        earlier = tt;
        later = inr (ground arith);
      }
    ]

module _ (offset length : ℕ) (pos : 0 < length) (narrow : offset + length < 2 ^ 64) where
  -- A buffer with a byte that no chunk covers is in none.
  pub holder-none :
      (from : ℕ) (cs : Chunks) (x : ℕ)
      → Sorted from cs
      → end from cs < 2 ^ 64
      → covers offset length x ≡ true
      → owns cs x ≡ false
      → holder cs offset length ≡ none
  unfolding holder Sorted end owns
  holder-none from [] x s fits here free = refl
  holder-none from (c ∷ cs) x s fits here free =
      let high = end-le (c.offset + c.length) cs (s.1) in
      let iff = buffer_in_bounds_iff c.offset c.length offset length (omega arith) narrow in
      let out : buffer_in_bounds offset length c.offset c.length ≡ false = ground (arith, iff.0) in
      rw out (holder-none (c.offset + c.length) cs x (s.1) fits here (ground arith))

  -- A chunk that contains the buffer is found.
  pub holder-some :
      (from : ℕ) (xs : Chunks) (p o l : ℕ) (ys : Chunks)
      → Sorted from (xs ++ chunk p o l ∷ ys)
      → Inside o l offset length
      → holder (xs ++ chunk p o l ∷ ys) offset length ≡ some p
  unfolding holder Sorted
  holder-some from [] p o l ys s i =
      let iff = buffer_in_bounds_iff o l offset length (i.range) narrow in rw (iff.1 (i.from, i.to))
  holder-some from (c ∷ cs) p o l ys s i =
      let parts = (Sorted-append (c.offset + c.length) cs (chunk p o l ∷ ys)).0 (s.1) in
      let low = end-le (c.offset + c.length) cs (parts.0) in
      let iff =
        buffer_in_bounds_iff c.offset c.length offset length
          (omega (arith, low, parts.1.0, i.from, i.range)) narrow in
      let out : buffer_in_bounds offset length c.offset c.length ≡ false =
        ground (arith, iff.0, low, parts.1.0, i.from) in
      rw out (holder-some (c.offset + c.length) cs p o l ys (s.1) i)
