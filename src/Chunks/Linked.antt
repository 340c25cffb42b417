-- ===== src/Chunks/Linked.antt =====
-- The list of `struct memory_ele` (cleanq/backends/debug/debug_queue.c) as a list of chunks with
-- their addresses, and what a write leaves of it.
use cleanq_linux.Base.{
  ℕ, ◌≡◌, refl, ◌≢◌, Bool, true, false, ◌||◌, Option, none, some, List, [], ◌∷◌, ◌++◌, done, arith,
  ◌==◌,
}
use cleanq_linux.Chunks.{MemoryEle, Heap, write, load}

-- `length` bytes from `offset`, in the element at `addr`
pub record Chunk : Type 0 where
  pub addr : ℕ
  pub offset : ℕ
  pub length : ℕ

abbrev pub chunk : ℕ → ℕ → ℕ → Chunk
chunk p o l = record { addr = p; offset = o; length = l }

abbrev pub Chunks : Type 0
Chunks = List Chunk

-- the first address of the list, and the last; `stop` and `prev` where it is empty
abbrev pub first : Chunks → ℕ → ℕ
first [] stop = stop
first (c ∷ cs) stop = c.addr

abbrev pub last : ℕ → Chunks → ℕ
last prev [] = prev
last prev (c ∷ cs) = last c.addr cs

abbrev pub has : ℕ → Chunks → Bool
has a [] = false
has a (c ∷ cs) = (a == c.addr) || has a cs

-- the element at `p` holds `o`, `l`, `next` and `prev`
pub record Points (h : Heap) (p o l next prev : ℕ) : Type 0 where
  pub ne_null : p ≢ 0
  pub holds : h p ≡ some (record { offset = o; length = l; next = next; prev = prev })

-- the elements of `cs` are linked both ways, between `prev` and `stop`, at different addresses
pub data Linked (h : Heap) (stop : ℕ) : ℕ → Chunks → Type 0 where
  nil : {prev : ℕ} → Linked h stop prev []
  cons :
      {prev p o l : ℕ} {cs : Chunks}
      → Points h p o l (first cs stop) prev
      → has p cs ≡ false
      → Linked h stop p cs
      → Linked h stop prev (chunk p o l ∷ cs)

-- `g` differs from `h` at most at the addresses of `cs`
abbrev pub SameOutside : Chunks → Heap → Heap → Type 0
SameOutside cs h g = (a : ℕ) → has a cs ≡ false → g a ≡ h a

abbrev pub Disjoint : Chunks → Chunks → Type 0
Disjoint cs ds = (a : ℕ) → has a cs ≡ true → has a ds ≡ false

module _ {h : Heap} {p o l next prev : ℕ} (e : Points h p o l next prev) where
  pub not_null : (p == 0) ≡ false
  not_null = ground (arith, e.ne_null)

  pub load-done : load h p ≡ done (record { offset = o; length = l; next = next; prev = prev })
  unfolding load
  load-done = rw (not_null, e.holds)

pub has-append : (a : ℕ) (cs ds : Chunks) → has a (cs ++ ds) ≡ (has a cs || has a ds)
has-append a [] ds = refl
has-append a (c ∷ cs) ds = ground (arith, has-append a cs ds)

pub first-append : (cs ds : Chunks) (stop : ℕ) → first (cs ++ ds) stop ≡ first cs (first ds stop)
first-append [] ds stop = refl
first-append (c ∷ cs) ds stop = refl

pub last-append : (prev : ℕ) (cs ds : Chunks) → last prev (cs ++ ds) ≡ last (last prev cs) ds
last-append prev [] ds = refl
last-append prev (c ∷ cs) ds = last-append c.addr cs ds

module _ {h : Heap} where
  pub frame :
      {g : Heap} {stop prev : ℕ} {cs : Chunks}
      → Linked h stop prev cs
      → ((a : ℕ) → has a cs ≡ true → g a ≡ h a)
      → Linked g stop prev cs
  frame nil same = nil
  frame (cons {p} e out s) same =
      cons (ground (arith, same p)) out (frame s λ a i. same a (ground arith))

  pub frame-write :
      {stop prev : ℕ} {cs : Chunks} (a : ℕ) (e : Option MemoryEle)
      → Linked h stop prev cs
      → has a cs ≡ false
      → Linked (write h a e) stop prev cs
  unfolding write
  frame-write a e s out = frame s (ground arith)

  pub not-has_of_none :
      {stop prev : ℕ} {cs : Chunks} (a : ℕ) → Linked h stop prev cs → h a ≡ none → has a cs ≡ false
  not-has_of_none a nil unused = refl
  not-has_of_none a (cons e out s) unused = ground (arith, not-has_of_none a s unused)

  -- the two halves of a list
  pub split :
      {stop prev : ℕ} (cs : Chunks) {ds : Chunks}
      → Linked h stop prev (cs ++ ds)
      → Linked h (first ds stop) prev cs × Linked h stop (last prev cs) ds × Disjoint cs ds
  split [] s = (nil, s, λ a i. cc)
  split {stop} (c ∷ cs) {ds} (cons e out s) =
      let halves = split cs s in
      (
        cons (rw (first-append cs ds stop) at e) (ground (arith, has-append c.addr cs ds, out))
            (halves.0),
        halves.1,
        λ a i. ground (arith, halves.2 a, has-append c.addr cs ds, out),
      )

  pub join :
      {stop prev : ℕ} (cs : Chunks) {ds : Chunks}
      → Linked h (first ds stop) prev cs
      → Linked h stop (last prev cs) ds
      → Disjoint cs ds
      → Linked h stop prev (cs ++ ds)
  join [] s t apart = t
  join {stop} (c ∷ cs) {ds} (cons e out s) t apart =
      cons (rw (first-append cs ds stop) e) (ground (arith, has-append c.addr cs ds, apart c.addr))
        (join cs s t λ a i. apart a (ground arith))
