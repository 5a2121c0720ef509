-- ===== src/Memory/Find/Highest.antt =====
-- `find_allocation_any_pages` and `find_allocation_max_address`: the highest free range that fits.
use rustfirmware.Base.{
  ℕ, ◌+◌, ◌-◌, ◌*◌, ◌/◌, ◌%◌, ◌≤◌, ◌<◌, ◌≡◌, ap, ◌∙◌, List, Option, none, some, ok, err, ok_or,
  arith, inl, inr, min, lt→ltb, ltb, false,
}
use native.Mathlib.Decide.{dec_lt}
use rustfirmware.Base.Word.{u64_mod}
use rustfirmware.Memory.Types.{
  EfiMemoryDescriptor, PageAllocator, out_of_resources, address_overflow,
}
use rustfirmware.Memory.Types
use rustfirmware.Memory.Arith.{Result}
use rustfirmware.Memory.Map.{end_of, IsRange, IsMap, pages_to_bytes_lem}
use rustfirmware.Memory.Find.{active, find_allocation_any_pages, find_allocation_max_address}
use rustfirmware.Memory.Find.Best.{
  All, Any, All-map, Any-map, Any-const, All-Unit, pick, IsBest, best_from-IsBest,
  each_candidate-best,
}
use rustfirmware.Memory.Find.Offers.{
  any_offer, max_offer, consider_any_pages-offer, consider_max_address-offer,
}

-- The bytes from `start` on lie in the conventional memory of `d` and below `limit`.
abbrev pub RoomAt : ℕ → ℕ → EfiMemoryDescriptor → ℕ → Type 0
RoomAt byte_count limit d start =
    (d.type ≡ 7)
    × (d.physical_start ≤ start)
    × (start + byte_count ≤ end_of d)
    × (start + byte_count ≤ limit)

-- A search returns the highest page address with room, or the error where there is none.
pub data Highest (byte_count limit : ℕ) (v : List EfiMemoryDescriptor) : Result ℕ → Type 0 where
  found :
      (start : ℕ)
      → start % 4096 ≡ 0
      → Any (λ d. RoomAt byte_count limit d start) v
      → All (λ d. (t : ℕ) → t % 4096 ≡ 0 → RoomAt byte_count limit d t → t ≤ start) v
      → Highest byte_count limit v (ok start)
  none_fits :
      All (λ d. (t : ℕ) → t % 4096 ≡ 0 → RoomAt byte_count limit d t → ⊥) v
      → Highest byte_count limit v (err out_of_resources)

module _ (byte_count memory : ℕ) (d : EfiMemoryDescriptor) (r : IsRange d) where
  max_offer-RoomAt :
      (s : ℕ)
      → some s ≡ max_offer byte_count memory d
      → RoomAt byte_count (memory + 1) d s × (s % 4096 ≡ 0)
  max_offer-RoomAt s e = ground (arith, r.aligned)

  RoomAt-max_offer :
      (t : ℕ)
      → t % 4096 ≡ 0
      → RoomAt byte_count (memory + 1) d t
      → (s : ℕ) × (max_offer byte_count memory d ≡ some s) × (t ≤ s)
  RoomAt-max_offer t aligned h =
      ((min (end_of d) (memory + 1) - byte_count) / 4096 * 4096, ground arith, omega arith)

-- What the best offer of a map means.
IsBest-Highest :
    (byte_count memory lo : ℕ) (v : List EfiMemoryDescriptor) (r : Option ℕ)
    → IsMap lo v
    → IsBest Types.high (max_offer byte_count memory) v r
    → Highest byte_count (memory + 1) v (ok_or r out_of_resources)
IsBest-Highest byte_count memory lo v none m b = none_fits (
    All-map _ _ lo v
      (λ d range beats t aligned room.
        let (s, offered, _) = RoomAt-max_offer byte_count memory d range t aligned room in
        beats s offered)
      m b.beats)
IsBest-Highest byte_count memory lo v (some start) m b = elim b.offered [
  | inl absent ↦ cc
  | inr offered ↦
      let sound =
        Any-map (λ d. some start ≡ max_offer byte_count memory d)
          (λ d. RoomAt byte_count (memory + 1) d start × (start % 4096 ≡ 0)) lo v
          (λ d range e. max_offer-RoomAt byte_count memory d range start e) m offered in
      found start
        (Any-const _ v (Any-map _ (λ _. start % 4096 ≡ 0) lo v (λ d range h. h.1) m sound))
        (Any-map _ _ lo v (λ d range h. h.0) m sound)
        (All-map _ _ lo v
          (λ d range beats t aligned room.
            let (s, offer, better) = RoomAt-max_offer byte_count memory d range t aligned room in
            omega (arith, beats s offer))
          m b.beats)
]

-- On a valid map the search for pages up to an address finds the highest range of free pages that
-- ends at or below it, and reports out of resources exactly where there is none.
pub find_allocation_max_address-Highest :
    (byte_count memory : ℕ) (a : PageAllocator)
    → byte_count < u64_mod
    → memory < u64_mod
    → IsMap 0 (active a)
    → Highest byte_count (memory + 1) (active a) (find_allocation_max_address byte_count memory a)
unfolding find_allocation_max_address
find_allocation_max_address-Highest byte_count memory a bound limit m =
    rw
      (each_candidate-best Types.high (max_offer byte_count memory) _ (λ _. Unit {0})
        (consider_max_address-offer byte_count memory bound limit) none 0 (active a) m
        (All-Unit (active a)))
      (IsBest-Highest byte_count memory 0 (active a) _ m
        (best_from-IsBest Types.high (max_offer byte_count memory) (active a)))

any_offer-max_offer :
    (byte_count : ℕ) (d : EfiMemoryDescriptor)
    → IsRange d
    → byte_count % 4096 ≡ 0
    → any_offer byte_count d ≡ max_offer byte_count (u64_mod - 1) d
any_offer-max_offer byte_count d r page = ground (arith, r.aligned, r.bounded)

-- The search for pages whose bytes are a 64-bit number.
pub find_allocation_any_pages-Highest :
    (pages : ℕ) (a : PageAllocator)
    → pages * 4096 < u64_mod
    → IsMap 0 (active a)
    → Highest (pages * 4096) u64_mod (active a) (find_allocation_any_pages pages a)
unfolding find_allocation_any_pages
find_allocation_any_pages-Highest pages a bound m =
    rw
      (
        pages_to_bytes_lem pages,
        lt→ltb _ _ bound,
        each_candidate-best Types.high (max_offer (pages * 4096) (u64_mod - 1)) _ (λ _. Unit {0})
            (λ c d r q.
              consider_any_pages-offer (pages * 4096) (omega arith) bound c d r q
              ∙ ap (λ (o : Option ℕ). ok (pick Types.high c o))
                  (any_offer-max_offer (pages * 4096) d r (omega arith)))
            none 0 (active a) m (All-Unit (active a)),
      )
      (IsBest-Highest (pages * 4096) (u64_mod - 1) 0 (active a) _ m
        (best_from-IsBest Types.high (max_offer (pages * 4096) (u64_mod - 1)) (active a)))

-- A search for pages whose bytes are a 64-bit number, or the report that they are not.
pub data Searched (pages : ℕ) (Best : Result ℕ → Type 0) : Result ℕ → Type 0 where
  searched : {r : Result ℕ} → pages * 4096 < u64_mod → Best r → Searched pages Best r
  too_many : u64_mod ≤ pages * 4096 → Searched pages Best (err address_overflow)

-- On a valid map the search for a number of pages returns the highest page address with enough
-- conventional memory behind it, and out of resources exactly where there is none, if the pages have
-- fewer than 2^64 bytes; otherwise it reports an overflow of addresses.
pub find_allocation_any_pages-Searched :
    (pages : ℕ) (a : PageAllocator)
    → IsMap 0 (active a)
    → Searched pages (Highest (pages * 4096) u64_mod (active a)) (find_allocation_any_pages pages a)
unfolding find_allocation_any_pages
find_allocation_any_pages-Searched pages a m = elim (dec_lt (pages * 4096) u64_mod) [
  | yes bound ↦ searched bound (find_allocation_any_pages-Highest pages a bound m)
  | no over ↦
      let wraps : ltb (pages * 4096) u64_mod ≡ false = ground arith in
      rw (pages_to_bytes_lem pages, wraps) (too_many (omega arith))
]
