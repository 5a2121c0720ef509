-- ===== src/Memory/Services/Laws.antt =====
-- Calls of the page services one after another.
use rustfirmware.Base.{
  ℕ, ◌+◌, ◌*◌, ◌%◌, ◌≤◌, ◌<◌, ◌≡◌, ◌≢◌, ◌∙◌, List, [], ◌∷◌, ok, err, arith, true, length, ◌⊎◌, inl,
  inr,
}
use native.Mathlib.Decide.{dec_le}
use rustfirmware.Base.Word.{u64_mod}
use rustfirmware.Memory.Types.{
  invalid_parameter, buffer_too_small, EfiMemoryDescriptor, EfiMemoryType, EfiAllocateType,
  efi_conventional_memory, as_uint32, PageAllocator,
}
use rustfirmware.Memory.Arith.{Result}
use rustfirmware.Memory.Find.{active}
use rustfirmware.Memory.Find.Best.{Any}
use rustfirmware.Memory.Alloc.{allocate_pages, free_pages}
use rustfirmware.Memory.Map.{end_of, type_at, IsMap}
use rustfirmware.Memory.Coalesce.Meaning.{IsHeldBy}
use rustfirmware.Memory.Split.Meaning.{within}
use rustfirmware.Memory.Exact.{
  IsValid, NoneHolds, Ends, done, refused, malformed, overflows, uncovered, other_type, full,
  Retyped,
}
use rustfirmware.Memory.Exact.Calls.{IsFreeable}
use rustfirmware.Memory.Services.{allocate_pages-Allocates, free_pages-Ends, allocated_inv}

-- What a descriptor that holds a range excludes.
held-bounded :
    (start end lo : ℕ) (v : List EfiMemoryDescriptor)
    → IsMap lo v
    → Any (IsHeldBy start end) v
    → end < u64_mod
held-bounded start end lo [] m h = elim h [ ]
held-bounded start end lo (d ∷ ds) m (inl h) = omega (arith, m.1.bounded, h.1)
held-bounded start end lo (d ∷ ds) m (inr h) = held-bounded start end (end_of d) ds m.2 h

held_somewhere :
    (start end : ℕ) (v : List EfiMemoryDescriptor)
    → Any (IsHeldBy start end) v
    → ¬ NoneHolds start end v
held_somewhere start end [] h none = elim h [ ]
held_somewhere start end (d ∷ ds) (inl h) none = ground (arith, none.0, h.0, h.1)
held_somewhere start end (d ∷ ds) (inr h) none = held_somewhere start end ds h none.1

-- Every address has the type again that it had in `a`; or the buffer of `b` has fewer than the two
-- places left that a split may take, and `b` stays as it is.
pub data Restores (a b : PageAllocator) : Result (Unit {0}) × PageAllocator → Type 0 where
  restored :
      {c : PageAllocator}
      → IsValid c
      → length c.descriptors ≡ length a.descriptors
      → ((x : ℕ) → type_at (active c) x ≡ type_at (active a) x)
      → Restores a b (ok tt, c)
  no_places : length b.descriptors < b.descriptor_count + 2 → Restores a b (err buffer_too_small, b)

module _ (a b : PageAllocator) (start pages : ℕ) (type : EfiMemoryType)
    (t : Retyped a b start pages type 7) (aligned : start % 4096 ≡ 0) (nonempty : 0 < pages)
    (freeable : IsFreeable (as_uint32 type)) where
  freed-Restores :
      {r : Result (Unit {0}) × PageAllocator}
      → Ends b start pages efi_conventional_memory IsFreeable invalid_parameter r
      → Restores a b r
  freed-Restores (done {b = c} old o u) =
      restored u.valid (u.capacity ∙ t.capacity)
        (λ x. ground (arith, t.types x, t.was x, u.types x))
  freed-Restores (refused (malformed (inl empty))) = absurd (omega arith)
  freed-Restores (refused (malformed (inr odd))) = absurd (odd aligned)
  freed-Restores (refused (overflows over)) =
      absurd
        (omega (arith, held-bounded start (start + pages * 4096) 0 (active b) t.valid.map t.held))
  freed-Restores (refused (uncovered none)) =
      absurd (held_somewhere start (start + pages * 4096) (active b) t.held none)
  freed-Restores (refused (other_type old other here)) =
      let now : old ≡ as_uint32 type = ground (arith, t.types start) in
      absurd (other (rw now freeable))
  freed-Restores (refused (full few)) = no_places few

-- On a valid map, where AllocatePages under any policy returns a range with a type that FreePages takes
-- back (neither that of conventional memory nor the reserved one), FreePages of that range succeeds
-- and gives every address its old type back, in a valid map in the same buffer; it fails only where
-- the allocation left fewer than two places in the buffer, and then changes nothing.
pub free_pages-allocate_pages :
    (policy : EfiAllocateType) (type : EfiMemoryType) (pages memory start : ℕ) (a b : PageAllocator)
    → memory < u64_mod
    → IsValid a
    → IsFreeable (as_uint32 type)
    → allocate_pages policy type pages memory a ≡ (ok start, b)
    → Restores a b (free_pages start pages b)
free_pages-allocate_pages policy type pages memory start a b limit valid freeable e =
    let (aligned, nonempty, t) =
      allocated_inv (allocate_pages-Allocates policy type pages memory a limit valid) start b e in
    freed-Restores a b start pages type t aligned nonempty freeable
      (free_pages-Ends start pages b t.valid)

-- Where the first range starts in the second, or the second in the first, an address is in both.
overlap_clash :
    (a b c : PageAllocator) (type type' : EfiMemoryType) (start start' pages pages' x : ℕ)
    → Retyped a b start pages type 7
    → Retyped b c start' pages' type' 7
    → within start pages x ≡ true
    → within start' pages' x ≡ true
    → as_uint32 type ≡ as_uint32 efi_conventional_memory
overlap_clash a b c type type' start start' pages pages' x t u first second =
    ground (arith, t.types x, u.was x second)

-- On a valid map two successful allocations, one directly after the other, return ranges that do not
-- overlap, where the type of the first is not that of conventional memory.
pub allocate_pages-disjoint :
    (policy policy' : EfiAllocateType) (type type' : EfiMemoryType)
    (pages pages' memory memory' start start' : ℕ) (a b c : PageAllocator)
    → memory < u64_mod
    → memory' < u64_mod
    → as_uint32 type ≢ as_uint32 efi_conventional_memory
    → IsValid a
    → allocate_pages policy type pages memory a ≡ (ok start, b)
    → allocate_pages policy' type' pages' memory' b ≡ (ok start', c)
    → (start + pages * 4096 ≤ start') ⊎ (start' + pages' * 4096 ≤ start)
allocate_pages-disjoint policy policy' type type' pages pages' memory memory' start start' a b c
      limit limit' other valid e f =
    let (_, some_pages, t) =
      allocated_inv (allocate_pages-Allocates policy type pages memory a limit valid) start b e in
    let (_, some_pages', u) =
      allocated_inv (allocate_pages-Allocates policy' type' pages' memory' b limit' t.valid) start'
        c f in
    let clash = overlap_clash a b c type type' start start' pages pages' in
    elim (dec_le (start + pages * 4096) start') [
      | yes before ↦ inl before
      | no h ↦ elim (dec_le (start' + pages' * 4096) start) [
        | yes after ↦ inr after
        | no h' ↦ elim (dec_le start start') [
          | yes first ↦ absurd (other (clash start' t u (ground arith) (ground arith)))
          | no second ↦ absurd (other (clash start t u (ground arith) (ground arith)))
        ]
      ]
    ]
