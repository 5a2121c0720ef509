-- ===== src/Memory/Insert/Ram.antt =====
-- `insert_sorted` and `add_memory_region` on a valid map.
use rustfirmware.Base.{
  ℕ, ◌+◌, ◌*◌, ◌%◌, ◌≤◌, ◌<◌, ◌≡◌, refl, sym, ap, ◌∙◌, subst, Bool, true, false, ◌&&◌, List, [],
  ◌∷◌, ◌++◌, Option, none, some, ok, err, arith, length, length-append, ltb, leb, if◌then◌else◌,
}
use rustfirmware.Base.Word.{u64_mod, wrapping_sub}
use rustfirmware.Memory.Types.{
  EfiMemoryDescriptor, MemoryRegion, PageAllocator, buffer_too_small, address_overflow,
}
use rustfirmware.Memory.Arith.{Result, bytes_to_pages}
use rustfirmware.Memory.Monad.{bind_outcome}
use rustfirmware.Memory.Buffer.{sorted_index, insert_sorted, insert_descriptor}
use rustfirmware.Memory.Find.{active}
use rustfirmware.Memory.Alloc.{on_range}
use rustfirmware.Memory.Build.{ram, add_memory_region}
use rustfirmware.Memory.Packed.{
  packed, spare, packed_eta, active-packed, insert_descriptor-packed, insert_descriptor-full,
}
use rustfirmware.Memory.Map.{end_of, covers, type_at, IsRange}
use rustfirmware.Memory.Exact.{IsValid}
use rustfirmware.Memory.Regions.{
  takes, PagesOf, page_range, no_pages, too_high, align_region_to_pages-PagesOf,
}
use rustfirmware.Memory.Insert.{Placed, sorted_index-Placed, free-Apart}

-- A new range of RAM is added, or the buffer is full, or the region ends too high and nothing
-- changes.
pub data AddsRam (inside : ℕ → Bool) (IsHigh : Type 0) (a : PageAllocator)
    : Result (Unit {0}) × PageAllocator → Type 0 where
  ram_added :
      {b : PageAllocator}
      → IsValid b
      → length b.descriptors ≡ length a.descriptors
      → ((x : ℕ) → type_at (active b) x ≡ (if inside x then some 7 else type_at (active a) x))
      → AddsRam inside IsHigh a (ok tt, b)
  no_place :
      a.descriptor_count ≡ length a.descriptors → AddsRam inside IsHigh a (err buffer_too_small, a)
  ram_high : IsHigh → AddsRam inside IsHigh a (err address_overflow, a)

module _ (IsHigh : Type 0) (d : EfiMemoryDescriptor) (v : List EfiMemoryDescriptor) where
  stops :
      (room : List EfiMemoryDescriptor)
      (p : Placed d 0 [] v (sorted_index (length v) 0 d (v ++ room)))
      → insert_sorted d (packed v room)
        ≡ insert_descriptor (length p.pre) d (packed (p.pre ++ p.post) room)
  unfolding insert_sorted
  stops room p =
      let index : sorted_index (length v) 0 d (v ++ room) ≡ ok (length p.pre) =
        p.index ∙ ap ok (omega arith) in
      rw index (
        ap (λ (w : List EfiMemoryDescriptor). insert_descriptor (length p.pre) d (packed w room))
          p.parts)

  insert_at :
      (room : List EfiMemoryDescriptor)
      → d.type ≡ 7
      → Placed d 0 [] v (sorted_index (length v) 0 d (v ++ room))
      → AddsRam (covers d) IsHigh (packed v room) (insert_sorted d (packed v room))
  insert_at [] ram_type p =
      subst (AddsRam (covers d) IsHigh (packed v []))
        (sym (
          stops [] p
          ∙ insert_descriptor-full p.pre p.post d
          ∙ ap (λ (w : List EfiMemoryDescriptor). (err buffer_too_small, packed w []))
              (sym p.parts)))
        (no_place (omega (arith, length-append v [])))
  insert_at (s ∷ room) ram_type p =
      let whole = p.pre ++ d ∷ p.post in
      let total : length v ≡ length p.pre + length p.post =
        ap length p.parts ∙ length-append p.pre p.post in
      let longer : length whole ≡ length p.pre + 1 + length p.post =
        omega (arith, length-append p.pre (d ∷ p.post)) in
      subst (AddsRam (covers d) IsHigh (packed v (s ∷ room)))
        (sym (stops (s ∷ room) p ∙ insert_descriptor-packed p.pre p.post d s room))
        (ram_added
          (record { fits = omega (arith, length-append whole room); map = rw active-packed p.map })
          (omega (arith, total, longer, length-append whole room, length-append v (s ∷ room)))
          (λ x.
            rw (active-packed whole room, active-packed v (s ∷ room))
              (p.types x ∙ ap (λ (n : ℕ). if covers d x then some n else type_at v x) ram_type)))

-- On a valid map `insert_sorted` adds a range of RAM that shares no address with the map.
pub insert_sorted-AddsRam :
    (IsHigh : Type 0) (d : EfiMemoryDescriptor) (a : PageAllocator)
    → IsValid a
    → IsRange d
    → d.type ≡ 7
    → ((x : ℕ) → covers d x ≡ true → type_at (active a) x ≡ none)
    → AddsRam (covers d) IsHigh a (insert_sorted d a)
insert_sorted-AddsRam IsHigh d a valid r ram_type free =
    subst (λ (b : PageAllocator). AddsRam (covers d) IsHigh b (insert_sorted d b))
      (packed_eta a valid.fits)
      (insert_at IsHigh d (active a) (spare a) ram_type (
        sorted_index-Placed d 0 [] (active a) (spare a) r valid.map (omega arith)
          (free-Apart d 0 (active a) r valid.map free)))

same-AddsRam :
    {inside inside' : ℕ → Bool} {IsHigh : Type 0} {a : PageAllocator}
    {r : Result (Unit {0}) × PageAllocator}
    → ((x : ℕ) → inside x ≡ inside' x)
    → AddsRam inside IsHigh a r
    → AddsRam inside' IsHigh a r
same-AddsRam {inside} {inside'} {IsHigh} {a} same (ram_added valid capacity types) =
    ram_added valid capacity
      (λ x. types x ∙ ap (λ (i : Bool). if i then some 7 else type_at (active a) x) (same x))
same-AddsRam same (no_place full) = no_place full
same-AddsRam same (ram_high h) = ram_high h

ram_pages :
    (start end : ℕ)
    → start % 4096 ≡ 0
    → end % 4096 ≡ 0
    → start < end
    → end < u64_mod
    → start + bytes_to_pages (wrapping_sub end start) * 4096 ≡ end
unfolding bytes_to_pages
ram_pages start end page page' nonempty bound = omega arith

ram_then :
    (region : MemoryRegion) (a : PageAllocator) {r : Result (Option (ℕ × ℕ))}
    → IsValid a
    → ((x : ℕ) → takes false region x ≡ true → type_at (active a) x ≡ none)
    → PagesOf false region r
    → AddsRam
        (takes false region)
        (u64_mod ≤ region.base + region.size + 4095)
        a
        (bind_outcome (r, a) λ range. on_range range λ start end. insert_sorted (ram start end))
ram_then region a valid free (page_range start end page page' nonempty bound same) =
    let ends : end_of (ram start end) ≡ end = ram_pages start end page page' nonempty bound in
    let range : IsRange (ram start end) = record {
      aligned = page;
      nonempty = omega arith;
      bounded = omega (arith, ends);
    } in
    let covered : (x : ℕ) → covers (ram start end) x ≡ takes false region x =
      λ x. ap (λ (n : ℕ). leb start x && ltb x n) ends ∙ same x in
    same-AddsRam covered (
      insert_sorted-AddsRam _ (ram start end) a valid range refl
        (λ x c. free x (sym (covered x) ∙ c)))
ram_then region a valid free (no_pages outside) = ram_added valid refl (λ x. rw (outside x))
ram_then region a valid free (too_high high) = ram_high high

-- On a valid map `add_memory_region` adds the whole pages of a region as conventional memory, where
-- the map has none of them, or the buffer is full or the region ends near the end of the address
-- space and nothing changes.
pub add_memory_region-AddsRam :
    (region : MemoryRegion) (a : PageAllocator)
    → IsValid a
    → ((x : ℕ) → takes false region x ≡ true → type_at (active a) x ≡ none)
    → AddsRam
        (takes false region)
        (u64_mod ≤ region.base + region.size + 4095)
        a
        (add_memory_region region a)
unfolding add_memory_region
add_memory_region-AddsRam region a valid free =
    ram_then region a valid free (align_region_to_pages-PagesOf false region)
