-- ===== src/Debug/Regions.antt =====
-- The regions of a debug queue (cleanq/backends/debug/debug_queue.c), each with its chunks, in one
-- memory, and what a change of one region's chunks leaves of the others.
use cleanq_linux.Base.{
  ℕ, ◌<◌, ◌^◌, ◌≡◌, refl, sym, ap, ◌∙◌, inl, inr, true, false, none, some, List, [], ◌∷◌, ◌++◌,
  arith, ◌==◌, Bool-cases,
}
use cleanq_linux.Chunks.{MemoryEle, Heap}
use cleanq_linux.Chunks.Linked.{
  Chunks, first, has, Linked, nil, cons, Disjoint, frame, not-has_of_none,
}
use cleanq_linux.Chunks.Gain.{Within}
use cleanq_linux.Debug.{MemoryList, Place, find_region}

-- a region and its chunks
pub record Area : Type 0 where
  pub region : MemoryList
  pub chunks : Chunks

abbrev pub area : MemoryList → Chunks → Area
area r cs = record { region = r; chunks = cs }

-- The list of the region is `chunks`, sorted and inside the region, which has a 64-bit length.
pub record IsTracked (h : Heap) (a : Area) : Type 0 where
  pub start : a.region.buffers ≡ first a.chunks 0
  pub linked : Linked h 0 0 a.chunks
  pub within : Within a.region.length a.chunks
  pub narrow : a.region.length < 2 ^ 64

-- no element of `cs` belongs to another region
abbrev pub Apart : Chunks → List Area → Type 0
Apart cs [] = Unit {0}
Apart cs (a ∷ rest) = Disjoint cs a.chunks × Apart cs rest

-- All regions are tracked, each in elements of its own.
abbrev pub AllTracked : Heap → List Area → Type 0
AllTracked h [] = Unit {0}
AllTracked h (a ∷ rest) = IsTracked h a × Apart a.chunks rest × AllTracked h rest

abbrev pub regions_of : List Area → List MemoryList
regions_of [] = []
regions_of (a ∷ rest) = a.region ∷ regions_of rest

-- The memory `h'` is `h` but for elements of `cs` and unused ones, of which `cs'` is made.
pub record Changes (h : Heap) (cs : Chunks) (h' : Heap) (cs' : Chunks) : Type 0 where
  pub spares : (a : ℕ) (e : MemoryEle) → h a ≡ some e → has a cs ≡ false → h' a ≡ some e
  pub only : (a : ℕ) → has a cs' ≡ true → has a cs ≡ false → h a ≡ none

pub held :
    {h : Heap} {stop prev : ℕ} {cs : Chunks} (a : ℕ)
    → Linked h stop prev cs
    → has a cs ≡ true
    → (e : MemoryEle) × (h a ≡ some e)
held a nil i = absurd (ground arith)
held {stop} a (cons {prev = q} {p} {o} {l} {cs = ds} e out s) i = elim (Bool-cases (a == p)) [
  | inl here ↦
      (record { offset = o; length = l; next = first ds stop; prev = q }, ground (arith, e.holds))
  | inr other ↦ held a s (ground arith)
]

module _ {h h' : Heap} {cs cs' : Chunks} (c : Changes h cs h' cs') where
  keeps_IsTracked : (a : Area) → Disjoint cs a.chunks → IsTracked h a → IsTracked h' a
  keeps_IsTracked a apart t = record {
    start = t.start;
    linked = frame (t.linked) λ b i.
        let (e, there) = held b (t.linked) i in
        c.spares b e there (ground (arith, apart b)) ∙ sym there;
    within = t.within;
    narrow = t.narrow;
  }

  keeps_all : (rest : List Area) → Apart cs rest → AllTracked h rest → AllTracked h' rest
  keeps_all [] apart t = tt
  keeps_all (a ∷ rest) (here, others) (t, between, ts) =
      (keeps_IsTracked a here t, between, keeps_all rest others ts)

  renew_Apart : (rest : List Area) → Apart cs rest → AllTracked h rest → Apart cs' rest
  renew_Apart [] apart t = tt
  renew_Apart (a ∷ rest) (here, others) (t, between, ts) = (
    (λ b i. elim (Bool-cases (has b cs)) [
      | inl old ↦ here b old
      | inr new ↦ not-has_of_none b (t.linked) (c.only b i new)
    ]),
    renew_Apart rest others ts,
  )

  meets_new : (ds : Chunks) → Linked h 0 0 ds → Disjoint ds cs → Disjoint ds cs'
  meets_new ds linked apart b i = elim (Bool-cases (has b cs')) [
    | inr out ↦ out
    | inl new ↦
        let (e, there) = held b linked i in absurd (ground (arith, c.only b new (apart b i)))
  ]

  change_Apart :
      (ds : Chunks) (before : List Area) (r r' : MemoryList) (after : List Area)
      → Linked h 0 0 ds
      → Apart ds (before ++ area r cs ∷ after)
      → Disjoint ds cs × Apart ds (before ++ area r' cs' ∷ after)
  change_Apart ds [] r r' after linked (here, others) = (here, (meets_new ds linked here, others))
  change_Apart ds (a ∷ rest) r r' after linked (here, others) =
      let (apart, more) = change_Apart ds rest r r' after linked others in (apart, (here, more))

  -- one region's chunks change
  pub change_tracked :
      (before : List Area) (r r' : MemoryList) (after : List Area)
      → AllTracked h (before ++ area r cs ∷ after)
      → IsTracked h' (area r' cs')
      → AllTracked h' (before ++ area r' cs' ∷ after)
  change_tracked [] r r' after (t, apart, ts) t' =
      (t', renew_Apart after apart ts, keeps_all after apart ts)
  change_tracked (a ∷ rest) r r' after (t, apart, ts) t' =
      let (meet, apart') = change_Apart a.chunks rest r r' after (t.linked) apart in
      (
        keeps_IsTracked a (λ b i. ground (arith, meet b)) t,
        apart',
        change_tracked rest r r' after ts t',
      )

pub here-IsTracked :
    {h : Heap} (before : List Area) (a : Area) (after : List Area)
    → AllTracked h (before ++ a ∷ after)
    → IsTracked h a
here-IsTracked [] a after (t, apart, ts) = t
here-IsTracked (b ∷ before) a after (t, apart, ts) = here-IsTracked before a after ts

-- no region has the id
abbrev pub NoneHas : ℕ → List Area → Type 0
NoneHas rid [] = Unit {0}
NoneHas rid (a ∷ rest) = ((a.region.rid == rid) ≡ false) × NoneHas rid rest

abbrev pub place_of : List Area → Area → List Area → Place
place_of before a after = (regions_of before, a.region, regions_of after)

pub find_region-at :
    (rid : ℕ) (before : List Area) (a : Area) (after : List Area)
    → NoneHas rid before
    → a.region.rid ≡ rid
    → find_region (regions_of (before ++ a ∷ after)) rid ≡ some (place_of before a after)
unfolding find_region
find_region-at rid [] a after none_has e =
    let here : (a.region.rid == rid) ≡ true = ground arith in rw here
find_region-at rid (b ∷ before) a after (other, none_has) e =
    rw (other, find_region-at rid before a after none_has e)

pub find_region-none :
    (rid : ℕ) (ts : List Area) → NoneHas rid ts → find_region (regions_of ts) rid ≡ none
unfolding find_region
find_region-none rid [] none_has = refl
find_region-none rid (a ∷ ts) (other, none_has) = rw (other, find_region-none rid ts none_has)

pub regions_of-append : (ts us : List Area) → regions_of (ts ++ us) ≡ regions_of ts ++ regions_of us
regions_of-append [] us = refl
regions_of-append (a ∷ ts) us = ap (λ t. a.region ∷ t) (regions_of-append ts us)
