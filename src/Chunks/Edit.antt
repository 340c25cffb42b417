-- ===== src/Chunks/Edit.antt =====
-- What a write of debug_queue.c to an element leaves of the list of chunks opened at a place.
use cleanq_linux.Base.{ℕ, ◌≡◌, ◌≢◌, false, Option, none, some, ◌∷◌, Returns, arith, ◌==◌}
use cleanq_linux.Slab.{SlabAllocator}
use cleanq_linux.Chunks.{MemoryEle, Tracked, write, link_prev}
use cleanq_linux.Chunks.Linked.{
  chunk, Chunks, first, last, has, Points, cons, frame-write, not-has_of_none,
}
use cleanq_linux.Chunks.Relink.{Open, At, link_prev-Open}

-- Every other element of the heap is as it was.
abbrev pub Spares : Chunks → ℕ → Chunks → Tracked → Tracked → Type 0
Spares xs p ys s s' =
    (a : ℕ) (e : MemoryEle)
    → s.heap a ≡ some e
    → has a xs ≡ false
    → (a == p) ≡ false
    → has a ys ≡ false
    → s'.heap a ≡ some e

module _ {s : Tracked} {xs ys : Chunks} where
  pub Open-write :
      {stop prev : ℕ} (p : ℕ) (e : Option MemoryEle) (alloc : SlabAllocator)
      → Open s xs stop prev ys
      → has p xs ≡ false
      → has p ys ≡ false
      → Open (record s { heap = write s.heap p e; alloc = alloc }) xs stop prev ys
  Open-write p e alloc o out_front out_back = record {
    start = o.start;
    front = frame-write p e (o.front) out_front;
    back = frame-write p e (o.back) out_back;
    apart = o.apart;
  }

  pub At-write :
      {p o l : ℕ} (o' l' : ℕ)
      → At s xs p o l ys
      → At
          (record s {
            heap =
                write s.heap p
                  (some (record { offset = o'; length = l'; next = first ys 0; prev = last 0 xs }));
          })
          xs
          p
          o'
          l'
          ys
  unfolding write
  At-write {p} o' l' a = record {
    around = Open-write p _ s.alloc (a.around) (a.out_front) (a.out_back);
    here = record { ne_null = a.here.ne_null; holds = ground arith };
    out_front = a.out_front;
    out_back = a.out_back;
  }

  pub push_back :
      {stop prev p o l : ℕ}
      → Open s xs stop p ys
      → Points s.heap p o l (first ys 0) prev
      → has p xs ≡ false
      → has p ys ≡ false
      → Open s xs stop prev (chunk p o l ∷ ys)
  push_back {p} a e out_front out_back = record {
    start = a.start;
    front = a.front;
    back = cons e out_back (a.back);
    apart = λ b i. ground (arith, a.apart b);
  }

module _ {s : Tracked} {xs ys : Chunks} where
  -- a new element at `b`, which the beginning of `ys` is made to point back to
  pub add_behind :
      {stop prev : ℕ} (b o l q : ℕ) (alloc : SlabAllocator)
      → Open s xs stop prev ys
      → s.heap b ≡ none
      → b ≢ 0
      → Returns
          (link_prev
            (record s {
              heap =
                  write s.heap b
                    (some (record { offset = o; length = l; next = first ys 0; prev = q }));
              alloc = alloc;
            })
            (first ys 0)
            b)
          λ s'.
            Open s' xs stop q (chunk b o l ∷ ys)
            × ((a : ℕ) (e : MemoryEle) → s.heap a ≡ some e → has a ys ≡ false → s'.heap a ≡ some e)
  unfolding write
  add_behind b o l q alloc a unused ne_null =
      let out_xs : has b xs ≡ false = not-has_of_none b (a.front) unused in
      let out_ys : has b ys ≡ false = not-has_of_none b (a.back) unused in
      let opened = Open-write b _ alloc a out_xs out_ys in
      let (s', run, (open', t)) = link_prev-Open b ys opened in
      (
        s',
        run,
        (
          push_back open' (record { ne_null = ne_null; holds = ground (arith, t.same b) }) out_xs
              out_ys,
          λ c e h out. ground (arith, t.same c),
        ),
      )
