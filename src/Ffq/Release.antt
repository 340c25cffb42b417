-- ===== src/Ffq/Release.antt =====
-- What `cleanq_ffq_create` (cleanq/backends/ff/ff_queue.c) gives back when it fails.
use cleanq_linux.Base.{
  ℕ, ◌+◌, ◌%◌, ◌≡◌, refl, ◌∙◌, true, false, Bool, Option, none, some, Returns, arith, bit_and,
}
use cleanq_linux.Base.Bits.{bit_and-mask}
use cleanq_linux.RegionPool.{region_pool_init}
use cleanq_linux.Cleanq.{cleanq_init}
use cleanq_linux.Shared.{System}
use cleanq_linux.Shared.Acquire.{LeavesDescriptor}
use cleanq_linux.Ffq.{ffq_chan_size}
use cleanq_linux.Ffq.Channel.{aligned, ffq_impl_init_rx, ffq_impl_init_tx}
use cleanq_linux.Ffq.Create.{cleanq_ffq_create}

pub aligned_lem : (buf : ℕ) → buf % 64 ≡ 0 → aligned buf ≡ true
aligned_lem buf h = let low : bit_and buf 63 ≡ 0 = bit_and-mask 6 buf ∙ h in ground (arith, low)

pub both_aligned : (buf : ℕ) → buf % 64 ≡ 0 → aligned (buf + ffq_chan_size) ≡ true
both_aligned buf h = aligned_lem (buf + ffq_chan_size) (omega arith)

-- `mmap` returns the address of a page: 64 divides it.
abbrev pub PageAligned : Option ℕ → Type 0
PageAligned none = Unit {0}
PageAligned (some buf) = buf % 64 ≡ 0

-- `cleanq_ffq_create` ends, without a failed assertion, when 64 divides what `mmap` returns. It
-- returns a queue exactly if all its calls succeed; when one fails, it returns an error and no
-- queue, and gives back the mapping, the name of the shared memory, the copy of the name and the
-- queue, as far as the calls before had acquired them, the latest first. The descriptor of
-- `shm_open` is open afterwards exactly if one of the two calls of it was made and succeeded,
-- whether a queue is returned or not.
pub cleanq_ffq_create-LeavesDescriptor :
    (os : System) (clear : Bool)
    → PageAligned os.mapped
    → Returns (cleanq_ffq_create os clear) (LeavesDescriptor os)
unfolding cleanq_ffq_create cleanq_init region_pool_init ffq_impl_init_rx ffq_impl_init_tx
cleanq_ffq_create-LeavesDescriptor os clear =
    go os.calloc_ok os.strdup os.exclusive_ok os.open_ok os.truncate_ok os.mapped os.pool_ok
      os.slots_ok
  where
    with_calls : Bool → Option ℕ → Bool → Bool → Bool → Option ℕ → Bool → Bool → System
    with_calls c s x o t m p l = record {
      calloc_ok = c;
      strdup = s;
      exclusive_ok = x;
      open_ok = o;
      truncate_ok = t;
      mapped = m;
      found = os.found;
      pool_ok = p;
      slots_ok = l;
      random = os.random;
    }

    go :
        (c : Bool) (s : Option ℕ) (x o t : Bool) (m : Option ℕ) (p l : Bool)
        → PageAligned m
        → Returns
            (cleanq_ffq_create (with_calls c s x o t m p l) clear)
            (LeavesDescriptor (with_calls c s x o t m p l))
    go false s x o t m p l h = (_, refl, (((λ e. cc), refl, refl), refl))
    go true none x o t m p l h = (_, refl, (((λ e. cc), refl, refl), refl))
    go true (some s) false false t m p l h = (_, refl, (((λ e. cc), refl, refl), refl))
    go true (some s) false true t none p l h = (_, refl, (((λ e. cc), refl, refl), refl))
    go true (some s) false true t (some m) false l h =
        rw (both_aligned m h, aligned_lem m h) (_, refl, (((λ e. cc), refl, refl), refl))
    go true (some s) false true t (some m) true false h =
        rw (both_aligned m h, aligned_lem m h) (_, refl, (((λ e. cc), refl, refl), refl))
    go true (some s) false true t (some m) true true h =
        rw (both_aligned m h, aligned_lem m h) (_, refl, ((refl, (λ e. cc), refl), refl))
    go true (some s) true o false m p l h = (_, refl, (((λ e. cc), refl, refl), refl))
    go true (some s) true o true none p l h = (_, refl, (((λ e. cc), refl, refl), refl))
    go true (some s) true o true (some m) false l h =
        rw (both_aligned m h, aligned_lem m h) (_, refl, (((λ e. cc), refl, refl), refl))
    go true (some s) true o true (some m) true false h =
        rw (both_aligned m h, aligned_lem m h) (_, refl, (((λ e. cc), refl, refl), refl))
    go true (some s) true o true (some m) true true h =
        rw (both_aligned m h, aligned_lem m h) (_, refl, ((refl, (λ e. cc), refl), refl))
