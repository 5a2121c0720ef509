-- ===== src/Memory/Find/Aligned.antt =====
-- `find_aligned_allocation` for an alignment that is a power of two: the first or last aligned range
-- of free pages.
use rustfirmware.Base.{
  ℕ, ◌+◌, ◌-◌, ◌*◌, ◌%◌, ◌^◌, ◌<◌, ◌≡◌, List, Option, none, some, ok, err, ok_or, arith, inl, inr,
  lt→ltb, ltb, false,
}
use native.Mathlib.Decide.{dec_lt}
use rustfirmware.Base.Word.{u64_mod}
use rustfirmware.Base.Bits.{some_power}
use rustfirmware.Base.Rounding.{rounded-mod, round_down-le, le-round_up, le-round_down, round_up-le}
use rustfirmware.Memory.Types.{
  EfiMemoryDescriptor, PageAllocator, out_of_resources, AllocationDirection,
}
use rustfirmware.Memory.Types
use rustfirmware.Memory.Arith.{Result}
use rustfirmware.Memory.Map.{end_of, IsRange, IsMap, pages_to_bytes_lem}
use rustfirmware.Memory.Find.{active, find_aligned_allocation}
use rustfirmware.Memory.Find.Best.{
  All, Any, All-map, Any-map, Any-const, Beaten-trans, NoBetter, IsBest, best_from-IsBest,
  each_candidate-best,
}
use rustfirmware.Memory.Find.Offers.{aligned_offer, aligned_at, RoundsUp, consider_aligned-offer}
use rustfirmware.Memory.Find.Highest.{RoomAt, Searched, searched, too_many}

-- The search returns the first or last aligned address with room, or the error where there is none.
pub data BestAligned (k byte_count : ℕ) (direction : AllocationDirection)
    (v : List EfiMemoryDescriptor) : Result ℕ → Type 0 where
  found :
      (start : ℕ)
      → start % 2 ^ k ≡ 0
      → Any (λ d. RoomAt byte_count u64_mod d start) v
      → All
          (λ d.
            (t : ℕ) → t % 2 ^ k ≡ 0 → RoomAt byte_count u64_mod d t → NoBetter direction t start)
          v
      → BestAligned k byte_count direction v (ok start)
  none_fits :
      All (λ d. (t : ℕ) → t % 2 ^ k ≡ 0 → RoomAt byte_count u64_mod d t → ⊥) v
      → BestAligned k byte_count direction v (err out_of_resources)

aligned_at-mod :
    (k byte_count : ℕ) (direction : AllocationDirection) (d : EfiMemoryDescriptor)
    → aligned_at k byte_count direction d % 2 ^ k ≡ 0
aligned_at-mod k byte_count Types.low d =
    rounded-mod (2 ^ k) (some_power k) (d.physical_start + (2 ^ k - 1))
aligned_at-mod k byte_count Types.high d =
    rounded-mod (2 ^ k) (some_power k) (end_of d - byte_count)

module _ (k byte_count : ℕ) (direction : AllocationDirection) (d : EfiMemoryDescriptor)
    (r : IsRange d) where
  aligned_offer-RoomAt :
      (s : ℕ)
      → some s ≡ aligned_offer k byte_count direction d
      → RoomAt byte_count u64_mod d s × (s % 2 ^ k ≡ 0)
  aligned_offer-RoomAt s e = ground (arith, aligned_at-mod k byte_count direction d, r.bounded)

-- Every aligned address with room is no better than the offer.
RoomAt-aligned_offer :
    (k byte_count : ℕ) (direction : AllocationDirection) (d : EfiMemoryDescriptor)
    → IsRange d
    → (t : ℕ) → t % 2 ^ k ≡ 0
    → RoomAt byte_count u64_mod d t
    → (aligned_offer k byte_count direction d ≡ some (aligned_at k byte_count direction d))
      × NoBetter direction t (aligned_at k byte_count direction d)
RoomAt-aligned_offer k byte_count Types.low d r t aligned h =
    let below = round_up-le (2 ^ k) (some_power k) t d.physical_start aligned h.1 in
    let above = le-round_up (2 ^ k) (some_power k) d.physical_start in (ground arith, below)
RoomAt-aligned_offer k byte_count Types.high d r t aligned h =
    let above =
      le-round_down (2 ^ k) (some_power k) t (end_of d - byte_count) aligned (omega arith) in
    let below = round_down-le (2 ^ k) (some_power k) (end_of d - byte_count) in
    (ground arith, above)

-- What the best offer of a map means.
IsBest-BestAligned :
    (k byte_count : ℕ) (direction : AllocationDirection) (lo : ℕ) (v : List EfiMemoryDescriptor)
    (r : Option ℕ)
    → IsMap lo v
    → IsBest direction (aligned_offer k byte_count direction) v r
    → BestAligned k byte_count direction v (ok_or r out_of_resources)
IsBest-BestAligned k byte_count direction lo v none m b = none_fits (
    All-map _ _ lo v
      (λ d range beats t aligned room.
        beats _ (RoomAt-aligned_offer k byte_count direction d range t aligned room).0)
      m b.beats)
IsBest-BestAligned k byte_count direction lo v (some start) m b = elim b.offered [
  | inl absent ↦ cc
  | inr offered ↦
      let sound =
        Any-map (λ d. some start ≡ aligned_offer k byte_count direction d)
          (λ d. RoomAt byte_count u64_mod d start × (start % 2 ^ k ≡ 0)) lo v
          (λ d range e. aligned_offer-RoomAt k byte_count direction d range start e) m offered in
      found start
        (Any-const _ v (Any-map _ (λ _. start % 2 ^ k ≡ 0) lo v (λ d range h. h.1) m sound))
        (Any-map _ _ lo v (λ d range h. h.0) m sound)
        (All-map _ _ lo v
          (λ d range beats t aligned room.
            let (offer, better) =
              RoomAt-aligned_offer k byte_count direction d range t aligned room in
            Beaten-trans direction t _ (some start) better (beats _ offer))
          m b.beats)
]

-- The search for pages whose bytes are a 64-bit number.
pub find_aligned_allocation-BestAligned :
    (k n : ℕ) (direction : AllocationDirection) (pages : ℕ) (a : PageAllocator)
    → k + n ≡ 64
    → pages * 4096 < u64_mod
    → IsMap 0 (active a)
    → All (RoundsUp k) (active a)
    → BestAligned k
        (pages * 4096)
        direction
        (active a)
        (find_aligned_allocation pages (2 ^ k) direction a)
unfolding find_aligned_allocation
find_aligned_allocation-BestAligned k n direction pages a width bound m rounds =
    rw
      (
        pages_to_bytes_lem pages,
        lt→ltb _ _ bound,
        each_candidate-best direction (aligned_offer k (pages * 4096) direction) _ (RoundsUp k)
            (consider_aligned-offer k n width (pages * 4096) bound direction) none 0 (active a) m
            rounds,
      )
      (IsBest-BestAligned k (pages * 4096) direction 0 (active a) _ m
        (best_from-IsBest direction (aligned_offer k (pages * 4096) direction) (active a)))

-- On a valid map, where rounding up the start of no descriptor leaves the address space, the search
-- with an alignment of a power of two returns the first or the last aligned address with enough
-- conventional memory behind it, by the direction, and out of resources exactly where there is none, if
-- the pages have fewer than 2^64 bytes; otherwise it reports an overflow of addresses.
pub find_aligned_allocation-Searched :
    (k n : ℕ) (direction : AllocationDirection) (pages : ℕ) (a : PageAllocator)
    → k + n ≡ 64
    → IsMap 0 (active a)
    → All (RoundsUp k) (active a)
    → Searched pages
        (BestAligned k (pages * 4096) direction (active a))
        (find_aligned_allocation pages (2 ^ k) direction a)
unfolding find_aligned_allocation
find_aligned_allocation-Searched k n direction pages a width m rounds =
    elim (dec_lt (pages * 4096) u64_mod) [
      | yes bound ↦
          searched bound
            (find_aligned_allocation-BestAligned k n direction pages a width bound m rounds)
      | no over ↦
          let wraps : ltb (pages * 4096) u64_mod ≡ false = ground arith in
          rw (pages_to_bytes_lem pages, wraps) (too_many (omega arith))
    ]
