-- ===== src/Chunks/Grown.antt =====
-- The list of chunks (debug_queue.c) after a buffer has come back, and the addresses it uses.
use cleanq_linux.Base.{
  ℕ, ◌+◌, ◌≡◌, inl, inr, true, false, none, some, [], ◌∷◌, ◌++◌, arith, ◌==◌, Bool-cases,
}
use cleanq_linux.Chunks.{MemoryEle, Tracked}
use cleanq_linux.Chunks.Linked.{chunk, Chunks, has, has-append}
use cleanq_linux.Chunks.Relink.{Holds}
use cleanq_linux.Chunks.Split.{Becomes}
use cleanq_linux.Chunks.Append.{longer_end}
use cleanq_linux.Chunks.Gain.{Gains}

-- The list of `s`, that was `cs`, has gained the buffer; the elements of other lists are as they
-- were.
pub record Grown (bound : ℕ) (s : Tracked) (cs : Chunks) (offset length : ℕ) (s' : Tracked)
    : Type 0 where
  pub chunks : Chunks
  pub holds : Holds s' chunks
  pub gains : Gains bound cs offset length chunks
  pub spares : (a : ℕ) (e : MemoryEle) → s.heap a ≡ some e → has a cs ≡ false → s'.heap a ≡ some e
  pub only : (a : ℕ) → has a chunks ≡ true → has a cs ≡ false → s.heap a ≡ none

-- `new` needs no address but those of `old` and unused ones.
pub Reuses : Tracked → Chunks → Chunks → Type 0
Reuses s old new = (a : ℕ) → has a new ≡ true → has a old ≡ false → s.heap a ≡ none

pub reuse :
    (s : Tracked) (xs ys old new : Chunks)
    → ((a : ℕ) → has a new ≡ true → has a old ≡ false → s.heap a ≡ none)
    → Reuses s (xs ++ (old ++ ys)) (xs ++ (new ++ ys))
unfolding Reuses
reuse s xs ys old new h a i o =
    h a
      (ground (
        arith,
        has-append a xs (new ++ ys),
        has-append a new ys,
        has-append a xs (old ++ ys),
        has-append a old ys,
      ))
      (ground (arith, has-append a xs (old ++ ys), has-append a old ys))

pub reuse_end :
    (s : Tracked) (xs : Chunks) (p o l offset length b : ℕ)
    → s.heap b ≡ none
    → Reuses s (xs ++ chunk p o l ∷ []) (xs ++ longer_end p o l offset length b)
unfolding Reuses
reuse_end s xs p o l offset length b unused a i out = elim (Bool-cases (o + l == offset)) [
  | inl meets ↦
      ground
        (arith, has-append a xs (chunk p o l ∷ []), has-append a xs (chunk p o (l + length) ∷ []))
  | inr apart ↦ ground (
    arith,
    unused,
    has-append a xs (chunk p o l ∷ []),
    has-append a xs (chunk p o l ∷ chunk b offset length ∷ []),
  )
]

pub grown :
    (bound : ℕ) (s : Tracked) (xs ys : Chunks) (p o l offset length : ℕ) (cs : Chunks)
    (s' : Tracked)
    → Gains bound (xs ++ chunk p o l ∷ ys) offset length cs
    → Reuses s (xs ++ chunk p o l ∷ ys) cs
    → Becomes xs p ys s cs s'
    → Grown bound s (xs ++ chunk p o l ∷ ys) offset length s'
unfolding Reuses
grown bound s xs ys p o l offset length cs s' g only (holds, spares) = record {
  chunks = cs;
  holds = holds;
  gains = g;
  only = only;
  spares = λ a e h out.
      spares a e h (ground (arith, has-append a xs (chunk p o l ∷ ys)))
        (ground (arith, has-append a xs (chunk p o l ∷ ys)))
        (ground (arith, has-append a xs (chunk p o l ∷ ys)));
}
