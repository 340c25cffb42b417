-- ===== src/Chunks/Cut.antt =====
-- `remove_split_buffer` of debug_queue.c: the chunks lose the bytes of the buffer.
use cleanq_linux.Base.{
  ℕ, ◌+◌, ◌<◌, ◌≡◌, inl, inr, true, false, not, ◌&&◌, Option, none, some, [], ◌∷◌, ◌++◌, done,
  Returns, weaken_Returns, arith, ltb, Bool-cases,
}
use cleanq_linux.Slab.{SlabAllocator, slab_free}
use cleanq_linux.Chunks.{MemoryEle, Tracked, remove_split_buffer}
use cleanq_linux.Chunks.Linked.{chunk, Chunks, has, has-append}
use cleanq_linux.Chunks.Carve.{Inside, carve}
use cleanq_linux.Chunks.Relink.{Holds}
use cleanq_linux.Chunks.Split.{Gives, remove_split_buffer-Becomes}
use cleanq_linux.Chunks.Owns.{covers, owns, owns-cut, Sorted-cut, end-cut}
use cleanq_linux.Chunks.Gain.{Within}

-- The list of `s`, that was `cs`, has lost the buffer; the elements of other lists are as they were.
pub record Shrunk (bound : ℕ) (s : Tracked) (cs : Chunks) (offset length : ℕ) (chunks : Chunks)
    (s' : Tracked) : Type 0 where
  pub holds : Holds s' chunks
  pub within : Within bound chunks
  pub left : (x : ℕ) → owns chunks x ≡ (owns cs x && not (covers offset length x))
  pub spares : (a : ℕ) (e : MemoryEle) → s.heap a ≡ some e → has a cs ≡ false → s'.heap a ≡ some e
  pub only : (a : ℕ) → has a chunks ≡ true → has a cs ≡ false → s.heap a ≡ none

has-carve :
    (s : Tracked) (memory : Option ℕ) (alloc : SlabAllocator) (p o l offset length b a : ℕ)
    → (o < offset → offset + length < o + l → Gives memory s b alloc)
    → has a (carve p o l offset length b) ≡ true
    → has a (chunk p o l ∷ []) ≡ false
    → s.heap a ≡ none
unfolding carve
has-carve s memory alloc p o l offset length b a gives i out = elim (Bool-cases (ltb o offset)) [
  | inr first ↦ absurd (ground arith)
  | inl later ↦ elim (Bool-cases (ltb (offset + length) (o + l))) [
    | inr last ↦ absurd (ground arith)
    | inl more ↦
        let g : Gives memory s b alloc = gives (ground arith) (ground arith) in
        ground (arith, g.unused)
  ]
]

pub remove_split_buffer-Shrunk :
    (bound : ℕ) (memory : Option ℕ) (b : ℕ) (alloc alloc' : SlabAllocator) (s : Tracked)
    (p o l offset length : ℕ) (xs ys : Chunks)
    → Holds s (xs ++ chunk p o l ∷ ys)
    → Within bound (xs ++ chunk p o l ∷ ys)
    → Inside o l offset length
    → (o < offset → offset + length < o + l → Gives memory s b alloc)
    → (offset ≡ o → length ≡ l → slab_free s.alloc (some p) ≡ done alloc')
    → Returns (remove_split_buffer memory s p offset length) (
        Shrunk bound s
          (xs ++ chunk p o l ∷ ys)
          offset
          length
          (xs ++ (carve p o l offset length b ++ ys)))
remove_split_buffer-Shrunk bound memory b alloc alloc' s p o l offset length xs ys holds w i gives
      freed =
    weaken_Returns
      (remove_split_buffer-Becomes p o l memory b alloc alloc' xs ys holds offset length i gives
        freed)
      λ s' r. record {
        holds = r.0;
        within = record {
          sorted = Sorted-cut xs ys p o l b offset length i 0 (w.sorted);
          bounded = omega (arith, w.bounded, end-cut xs ys p o l b offset length 0 i (w.sorted));
        };
        left = λ x. owns-cut xs ys p o l b offset length i 0 x (w.sorted);
        spares = λ a e h out.
            r.1 a e h (ground (arith, has-append a xs (chunk p o l ∷ ys)))
              (ground (arith, has-append a xs (chunk p o l ∷ ys)))
              (ground (arith, has-append a xs (chunk p o l ∷ ys)));
        only = λ a here out.
            has-carve s memory alloc p o l offset length b a gives
              (ground (
                arith,
                has-append a xs (carve p o l offset length b ++ ys),
                has-append a (carve p o l offset length b) ys,
                has-append a xs (chunk p o l ∷ ys),
              ))
              (ground (arith, has-append a xs (chunk p o l ∷ ys)));
      }
