-- ===== src/Memory/Services/Progress.antt =====
-- `AllocatePages` succeeds where there is room.
use rustfirmware.Base.{
  ℕ, ◌+◌, ◌*◌, ◌%◌, ◌≤◌, ◌<◌, ◌≡◌, refl, false, List, [], ◌∷◌, some, ok, arith, length, ◌==◌, inl,
  inr, lt→ltb,
}
use rustfirmware.Base.Word.{u64_mod}
use rustfirmware.Memory.Types.{
  EfiMemoryDescriptor, EfiMemoryType, efi_max_memory_type, memory_type_eq, allocate_any_pages,
  PageAllocator, out_of_resources,
}
use rustfirmware.Memory.Arith.{Result, pages_to_u64}
use rustfirmware.Memory.Find.{active}
use rustfirmware.Memory.Find.Best.{All, Any}
use rustfirmware.Memory.Find.Highest.{
  RoomAt, Highest, found, none_fits, find_allocation_any_pages-Highest,
}
use rustfirmware.Memory.Alloc.{allocation_start, allocate_pages}
use rustfirmware.Memory.Map.{end_of, type_at, IsMap, pages_to_bytes_lem}
use rustfirmware.Memory.Exact.{
  IsValid, NoneHolds, Ends, done, refused, malformed, overflows, uncovered, other_type, full,
}
use rustfirmware.Memory.Exact.Calls.{IsConventional, allocate_exact_range-Ends}

-- What a free range of a map excludes.
module _ (byte_count limit start : ℕ) (nonempty : 0 < byte_count) where
  room-lt-u64 :
      (lo : ℕ) (v : List EfiMemoryDescriptor)
      → IsMap lo v
      → Any (λ d. RoomAt byte_count limit d start) v
      → start + byte_count < u64_mod
  room-lt-u64 lo [] m h = elim h [ ]
  room-lt-u64 lo (d ∷ ds) m (inl h) = omega (arith, m.1.bounded, h.2)
  room-lt-u64 lo (d ∷ ds) m (inr h) = room-lt-u64 (end_of d) ds m.2 h

  room-start :
      (lo : ℕ) (v : List EfiMemoryDescriptor)
      → IsMap lo v
      → Any (λ d. RoomAt byte_count limit d start) v
      → lo ≤ start
  room-start lo [] m h = elim h [ ]
  room-start lo (d ∷ ds) m (inl h) = omega (arith, m.0, h.1)
  room-start lo (d ∷ ds) m (inr h) = omega (arith, m.0, room-start (end_of d) ds m.2 h)

  room-type :
      (lo : ℕ) (v : List EfiMemoryDescriptor)
      → IsMap lo v
      → Any (λ d. RoomAt byte_count limit d start) v
      → type_at v start ≡ some 7
  room-type lo [] m h = elim h [ ]
  room-type lo (d ∷ ds) m (inl h) = ground (arith, h.0, h.1, h.2)
  room-type lo (d ∷ ds) m (inr h) =
      ground (arith, room-start (end_of d) ds m.2 h, room-type (end_of d) ds m.2 h)

  room-held :
      (v : List EfiMemoryDescriptor)
      → Any (λ d. RoomAt byte_count limit d start) v
      → ¬ NoneHolds start (start + byte_count) v
  room-held [] h none = elim h [ ]
  room-held (d ∷ ds) (inl h) none = ground (arith, none.0, h.1, h.2)
  room-held (d ∷ ds) (inr h) none = room-held ds h none.1

-- Where all of a range is free and the buffer has two places left, no refusal is possible.
exact_succeeds :
    (a : PageAllocator) (start pages limit : ℕ) (type : EfiMemoryType)
    {r : Result (Unit {0}) × PageAllocator}
    → IsValid a
    → 0 < pages
    → start % 4096 ≡ 0
    → a.descriptor_count + 2 ≤ length a.descriptors
    → Any (λ d. RoomAt (pages * 4096) limit d start) (active a)
    → Ends a start pages type IsConventional out_of_resources r
    → (b : PageAllocator) × (r ≡ (ok tt, b))
exact_succeeds a start pages limit type valid nonempty aligned places room (done {b} old o t) =
    (b, refl)
exact_succeeds a start pages limit type valid nonempty aligned places room
      (refused (malformed (inl empty))) =
    absurd (omega arith)
exact_succeeds a start pages limit type valid nonempty aligned places room
      (refused (malformed (inr odd))) =
    absurd (odd aligned)
exact_succeeds a start pages limit type valid nonempty aligned places room
      (refused (overflows over)) =
    absurd (
      omega
        (arith, room-lt-u64 (pages * 4096) limit start (omega arith) 0 (active a) valid.map room))
exact_succeeds a start pages limit type valid nonempty aligned places room
      (refused (uncovered none)) =
    absurd (room-held (pages * 4096) limit start (omega arith) (active a) room none)
exact_succeeds a start pages limit type valid nonempty aligned places room
      (refused (other_type old other here)) =
    absurd (
      other (
        ground (
          arith,
          here,
          room-type (pages * 4096) limit start (omega arith) 0 (active a) valid.map room,
        )))
exact_succeeds a start pages limit type valid nonempty aligned places room (refused (full few)) =
    absurd (omega arith)

-- What holds of every descriptor holds of the one with the property.
All-Any :
    (P : EfiMemoryDescriptor → Type 0) (Q : Type 0) (v : List EfiMemoryDescriptor)
    → All (λ d. P d → Q) v
    → Any P v
    → Q
All-Any P Q [] h k = elim k [ ]
All-Any P Q (d ∷ ds) h (inl k) = h.0 k
All-Any P Q (d ∷ ds) h (inr k) = All-Any P Q ds h.1 k

search_succeeds :
    (byte_count limit t : ℕ) (v : List EfiMemoryDescriptor) {r : Result ℕ}
    → t % 4096 ≡ 0
    → Any (λ d. RoomAt byte_count limit d t) v
    → Highest byte_count limit v r
    → (start : ℕ) × (r ≡ ok start)
      × (start % 4096 ≡ 0)
      × (t ≤ start)
      × Any (λ d. RoomAt byte_count limit d start) v
search_succeeds byte_count limit t v aligned room (found start page here best) = (
  start,
  refl,
  page,
  All-Any (λ d. RoomAt byte_count limit d t) (t ≤ start) v (at_t v best) room,
  here,
)
  where
    at_t :
        (w : List EfiMemoryDescriptor)
        → All (λ d. (s : ℕ) → s % 4096 ≡ 0 → RoomAt byte_count limit d s → s ≤ start) w
        → All (λ d. RoomAt byte_count limit d t → t ≤ start) w
    at_t [] h = tt
    at_t (d ∷ ds) h = (h.0 t aligned, at_t ds h.1)
search_succeeds byte_count limit t v aligned room (none_fits absent) =
    absurd (All-Any (λ d. RoomAt byte_count limit d t) ⊥ v (at_t v absent) room)
  where
    at_t :
        (w : List EfiMemoryDescriptor)
        → All (λ d. (s : ℕ) → s % 4096 ≡ 0 → RoomAt byte_count limit d s → ⊥) w
        → All (λ d. RoomAt byte_count limit d t → ⊥) w
    at_t [] h = tt
    at_t (d ∷ ds) h = (h.0 t aligned, at_t ds h.1)

-- On a valid map with two places left in the buffer, `AllocatePages` for any pages succeeds where some
-- page address has enough free memory behind it, and returns that address or a higher one.
pub allocate_pages-succeeds :
    (type : EfiMemoryType) (pages memory t : ℕ) (a : PageAllocator)
    → 0 < pages
    → pages * 4096 < u64_mod
    → memory_type_eq type efi_max_memory_type ≡ false
    → IsValid a
    → a.descriptor_count + 2 ≤ length a.descriptors
    → t % 4096 ≡ 0
    → Any (λ d. RoomAt (pages * 4096) u64_mod d t) (active a)
    → (start : ℕ) × (b : PageAllocator) × (t ≤ start)
      × (allocate_pages allocate_any_pages type pages memory a ≡ (ok start, b))
unfolding allocate_pages allocation_start pages_to_u64
allocate_pages-succeeds type pages memory t a nonempty bound usable valid places aligned room =
    let (start, finds, page, above, here) =
      search_succeeds (pages * 4096) u64_mod t (active a) aligned room
        (find_allocation_any_pages-Highest pages a bound valid.map) in
    let (b, runs) =
      exact_succeeds a start pages u64_mod type valid nonempty page places here
        (allocate_exact_range-Ends a valid start pages page nonempty type) in
    let some_pages : (pages == 0) ≡ false = ground arith in
    (
      start,
      b,
      above,
      rw (some_pages, usable, pages_to_bytes_lem pages, lt→ltb _ _ bound, finds, runs),
    )
