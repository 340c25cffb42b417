-- ===== src/Chunks/Relink.antt =====
-- The list of chunks opened at a place, and the writes of debug_queue.c that set the pointers of
-- the neighbours of that place.
use cleanq_linux.Base.{ℕ, ◌≡◌, refl, false, [], ◌∷◌, ◌++◌, Returns, arith, ◌==◌}
use cleanq_linux.Chunks.{Heap, Tracked, write, set_next, set_prev, link_next, link_prev}
use cleanq_linux.Chunks.Linked.{
  Chunk, chunk, Chunks, first, last, has, Points, Linked, nil, cons, SameOutside, Disjoint,
  not_null, load-done, first-append, frame, frame-write, split, join,
}

-- the region's list is `cs`
pub record Holds (s : Tracked) (cs : Chunks) : Type 0 where
  pub start : s.buffers ≡ first cs 0
  pub linked : Linked s.heap 0 0 cs

-- `xs`, whose end points to `stop`, and `ys`, whose beginning points back to `prev`
pub record Open (s : Tracked) (xs : Chunks) (stop prev : ℕ) (ys : Chunks) : Type 0 where
  pub start : s.buffers ≡ first xs stop
  pub front : Linked s.heap stop 0 xs
  pub back : Linked s.heap 0 prev ys
  pub apart : Disjoint xs ys

-- the chunk at `p` between `xs` and `ys`
pub record At (s : Tracked) (xs : Chunks) (p o l : ℕ) (ys : Chunks) : Type 0 where
  pub around : Open s xs p p ys
  pub here : Points s.heap p o l (first ys 0) (last 0 xs)
  pub out_front : has p xs ≡ false
  pub out_back : has p ys ≡ false

module _ {s : Tracked} where
  pub take_out :
      {p o l : ℕ} (xs : Chunks) {ys : Chunks} → Holds s (xs ++ chunk p o l ∷ ys) → At s xs p o l ys
  take_out {p} {o} {l} xs {ys} hs =
      let (front, rest, apart) = split xs (hs.linked) in
      elim rest [
        | cons e out back ↦ record {
          around = record {
            start = rw (← first-append xs (chunk p o l ∷ ys) 0) (hs.start);
            front = front;
            back = back;
            apart = λ a i. ground (arith, apart a);
          };
          here = e;
          out_front = ground (arith, apart p);
          out_back = out;
        }
      ]

  pub put_in :
      {p o l : ℕ} (xs : Chunks) {ys : Chunks} → At s xs p o l ys → Holds s (xs ++ chunk p o l ∷ ys)
  put_in {p} {o} {l} xs {ys} a = record {
    start = rw (first-append xs (chunk p o l ∷ ys) 0) (a.around.start);
    linked =
        join xs (a.around.front) (cons (a.here) (a.out_back) (a.around.back))
          λ b i. ground (arith, a.around.apart b, a.out_front);
  }

  pub close :
      (xs : Chunks) {ys : Chunks} → Open s xs (first ys 0) (last 0 xs) ys → Holds s (xs ++ ys)
  close xs {ys} o = record {
    start = rw (first-append xs ys 0) (o.start);
    linked = join xs (o.front) (o.back) (o.apart);
  }

set_next-last :
    {h : Heap} {stop prev : ℕ} (r : ℕ) (c : Chunk) (cs : Chunks)
    → Linked h stop prev (c ∷ cs)
    → Returns
        (set_next h (last prev (c ∷ cs)) r)
        λ g. Linked g r prev (c ∷ cs) × SameOutside (c ∷ cs) h g
unfolding set_next write
set_next-last {h} {stop} r c [] (cons {prev = prev} e out s) =
    rw (load-done e) (
      _,
      refl,
      (cons (record { ne_null = e.ne_null; holds = ground arith }) refl nil, ground arith),
    )
set_next-last {h} {stop} r c (d ∷ ds) (cons {prev = prev} e out s) =
    let (g, run, (linked, same)) = set_next-last r d ds s in
    (
      g,
      run,
      (
        cons (record { ne_null = e.ne_null; holds = ground (arith, same c.addr, e.holds) }) out
            linked,
        λ a o. same a (ground arith),
      ),
    )

-- `s'` differs from `s` at most at the elements of `cs`; its allocator is the same.
pub record Touches (cs : Chunks) (s s' : Tracked) : Type 0 where
  pub same : SameOutside cs s.heap s'.heap
  pub alloc : s'.alloc ≡ s.alloc

last-not_null :
    {h : Heap} {stop prev : ℕ} (c : Chunk) (cs : Chunks)
    → Linked h stop prev (c ∷ cs)
    → (last prev (c ∷ cs) == 0) ≡ false
last-not_null c [] (cons e out s) = not_null e
last-not_null c (d ∷ ds) (cons e out s) = last-not_null d ds s

module _ {s : Tracked} {stop prev : ℕ} (r : ℕ) where
  pub link_next-Open :
      (xs : Chunks) {ys : Chunks}
      → Open s xs stop prev ys
      → Returns (link_next s (last 0 xs) r) λ s'. Open s' xs r prev ys × Touches xs s s'
  unfolding link_next
  link_next-Open [] o = (
    record s { buffers = r },
    refl,
    (
      record { start = refl; front = nil; back = o.back; apart = o.apart },
      record { same = λ a i. refl; alloc = refl },
    ),
  )
  link_next-Open (c ∷ cs) o =
      let (g, run, (linked, same)) = set_next-last r c cs (o.front) in
      rw (last-not_null c cs (o.front), run)
        (
          record s { heap = g },
          refl,
          (
            record {
              start = o.start;
              front = linked;
              back = frame (o.back) λ a i. same a (ground (arith, o.apart a));
              apart = o.apart;
            },
            record { same = same; alloc = refl },
          ),
        )

  pub link_prev-Open :
      {xs : Chunks} (ys : Chunks)
      → Open s xs stop prev ys
      → Returns (link_prev s (first ys 0) r) λ s'. Open s' xs stop r ys × Touches ys s s'
  unfolding link_prev set_prev write
  link_prev-Open [] o = (
    s,
    refl,
    (
      record { start = o.start; front = o.front; back = nil; apart = o.apart },
      record { same = λ a i. refl; alloc = refl },
    ),
  )
  link_prev-Open (c ∷ cs) o = elim (o.back) [
    | cons e out back ↦
        rw (not_null e, load-done e)
          (
            _,
            refl,
            (
              record {
                start = o.start;
                front = frame-write c.addr _ (o.front) (ground (arith, o.apart c.addr));
                back =
                    cons (record { ne_null = e.ne_null; holds = ground arith }) out
                      (frame-write c.addr _ back out);
                apart = o.apart;
              },
              record { same = ground arith; alloc = refl },
            ),
          )
  ]
