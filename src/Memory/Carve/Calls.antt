-- ===== src/Memory/Carve/Calls.antt =====
-- `carve_range`, `carve_range_for_reserved_region`, `add_reserved_region_with_type` and
-- `reserve_region_with_type` on a valid map.
use rustfirmware.Base.{
  ℕ, suc, ◌+◌, ◌%◌, ◌≤◌, ◌<◌, ◌≡◌, refl, sym, ap, ◌∙◌, subst, Bool, true, false, ◌&&◌, [], Option,
  none, some, ok, err, arith, length, length-append, length-take, length-drop, ltb, leb, inl, inr,
  if◌then◌else◌,
}
use rustfirmware.Base.Word.{u64_mod}
use rustfirmware.Memory.Types.{
  EfiMemoryType, as_uint32, MemoryRegion, PageAllocator, buffer_too_small, address_overflow,
}
use rustfirmware.Memory.Arith.{Result}
use rustfirmware.Memory.Monad.{bind_outcome}
use rustfirmware.Memory.Buffer.{coalesce}
use rustfirmware.Memory.Find.{active}
use rustfirmware.Memory.Alloc.{
  carve_loop, is_conventional, is_conventional_or_reserved, carve_range,
  carve_range_for_reserved_region, add_reserved_region_with_type, reserve_region_with_type,
  on_range,
}
use rustfirmware.Memory.Packed.{packed, spare, packed_eta, active-packed}
use rustfirmware.Memory.Map.{type_at}
use rustfirmware.Memory.Exact.{IsValid}
use rustfirmware.Memory.Exact.Coalesced.{coalesce-Coalesced}
use rustfirmware.Memory.Regions.{
  takes, PagesOf, page_range, no_pages, too_high, align_region_to_pages-PagesOf,
}
use rustfirmware.Memory.Carve.Meaning.{carved, Carves, carve_loop-Carves}

-- The type of an address after its page was claimed, where its old type may be.
abbrev pub claimed : (ℕ → Bool) → Bool → EfiMemoryType → Option ℕ → Option ℕ
claimed carvable inside type none = none
claimed carvable inside type (some t) =
    if inside && carvable t then some (as_uint32 type) else some t

-- A call claims the pages that `inside` tells, or reports that the buffer is full, with a valid map
-- left, or that the region ends too high, with nothing changed.
pub data Claims (carvable : ℕ → Bool) (type : EfiMemoryType) (inside : ℕ → Bool) (IsHigh : Type 0)
    (a : PageAllocator) : Result (Unit {0}) × PageAllocator → Type 0 where
  claimed_all :
      {b : PageAllocator}
      → IsValid b
      → length b.descriptors ≡ length a.descriptors
      → ((x : ℕ) → type_at (active b) x ≡ claimed carvable (inside x) type (type_at (active a) x))
      → Claims carvable type inside IsHigh a (ok tt, b)
  cut_short :
      {b : PageAllocator}
      → IsValid b
      → length b.descriptors ≡ length a.descriptors
      → Claims carvable type inside IsHigh a (err buffer_too_small, b)
  ends_high : IsHigh → Claims carvable type inside IsHigh a (err address_overflow, a)

module _ (carvable : ℕ → Bool) (start end : ℕ) (type : EfiMemoryType) where
  carved-claimed :
      (x : ℕ) (o : Option ℕ)
      → carved carvable start end type x o ≡ claimed carvable (leb start x && ltb x end) type o
  carved-claimed x none = refl
  carved-claimed x (some t) = ground arith

  Carves-Claims :
      (IsHigh : Type 0) (a : PageAllocator) {r : Result (Unit {0}) × PageAllocator}
      → IsValid a
      → Carves carvable start end type 0 [] (active a) (spare a) r
      → Claims carvable type (λ x. leb start x && ltb x end) IsHigh a r
  Carves-Claims IsHigh a valid c =
      let after : PageAllocator = packed c.post' c.room' in
      let valid' : IsValid after = record {
        fits = omega (arith, length-append c.post' c.room');
        map = rw active-packed c.map;
      } in
      let capacity : length after.descriptors ≡ length a.descriptors = omega (
        arith,
        c.size,
        valid.fits,
        length-append c.post' c.room',
        length-take a.descriptor_count a.descriptors,
        length-drop a.descriptor_count a.descriptors,
      ) in
      subst (Claims carvable type (λ x. leb start x && ltb x end) IsHigh a) (sym c.runs)
        (elim c.meaning [
          | inl (o, types) ↦ rw o (
              claimed_all valid' capacity
                (λ x. rw active-packed (types x ∙ carved-claimed x (type_at (active a) x))))
          | inr o ↦ rw o (cut_short valid' capacity)
        ])

  loop-Claims :
      (IsHigh : Type 0) (a : PageAllocator)
      → IsValid a
      → start < end
      → start % 4096 ≡ 0
      → end % 4096 ≡ 0
      → Claims carvable type
          (λ x. leb start x && ltb x end)
          IsHigh
          a
          (carve_loop carvable (suc (length a.descriptors)) start end type 0 a)
  loop-Claims IsHigh a valid nonempty page page' = Carves-Claims IsHigh a valid (
      subst
        (λ (b : PageAllocator).
          Carves carvable start end type 0 [] (active a) (spare a)
            (carve_loop carvable (suc (length a.descriptors)) start end type 0 b))
        (packed_eta a valid.fits)
        (carve_loop-Carves carvable start end type nonempty page page' (suc (length a.descriptors))
          0 [] (active a) (spare a)
          (omega (
            arith,
            valid.fits,
            length-take a.descriptor_count a.descriptors,
            length-drop a.descriptor_count a.descriptors,
          ))
          valid.map))

-- On a valid map `carve_range` gives the conventional pages of a range the type, and changes no
-- others.
pub carve_range-Claims :
    (start end : ℕ) (type : EfiMemoryType) (a : PageAllocator)
    → IsValid a
    → start < end
    → start % 4096 ≡ 0
    → end % 4096 ≡ 0
    → Claims is_conventional type (λ x. leb start x && ltb x end) ⊥ a (carve_range start end type a)
unfolding carve_range
carve_range-Claims start end type a valid nonempty page page' =
    loop-Claims is_conventional start end type ⊥ a valid nonempty page page'

same-Claims :
    {carvable : ℕ → Bool} {type : EfiMemoryType} {inside inside' : ℕ → Bool} {IsHigh : Type 0}
    {a : PageAllocator} {r : Result (Unit {0}) × PageAllocator}
    → ((x : ℕ) → inside x ≡ inside' x)
    → Claims carvable type inside IsHigh a r
    → Claims carvable type inside' IsHigh a r
same-Claims {carvable} {type} {inside} {inside'} {IsHigh} {a} same
      (claimed_all valid capacity types) =
    claimed_all valid capacity
      (λ x. types x ∙ ap (λ (i : Bool). claimed carvable i type (type_at (active a) x)) (same x))
same-Claims same (cut_short valid capacity) = cut_short valid capacity
same-Claims same (ends_high h) = ends_high h

claimed-outside :
    (carvable : ℕ → Bool) (type : EfiMemoryType) (o : Option ℕ) → o ≡ claimed carvable false type o
claimed-outside carvable type none = refl
claimed-outside carvable type (some t) = refl

-- A region's end is near the end of the address space.
abbrev pub EndsHigh : MemoryRegion → Type 0
EndsHigh region = u64_mod ≤ region.base + region.size + 4095

region_then :
    (region : MemoryRegion) (type : EfiMemoryType) (a : PageAllocator) {r : Result (Option (ℕ × ℕ))}
    → IsValid a
    → PagesOf true region r
    → Claims is_conventional_or_reserved type (takes true region) (EndsHigh region) a (
        bind_outcome
          (r, a)
          λ range. on_range range λ start end. carve_range_for_reserved_region start end type)
unfolding carve_range_for_reserved_region
region_then region type a valid (page_range start end page page' nonempty _ same) =
    same-Claims same (
      loop-Claims is_conventional_or_reserved start end type (EndsHigh region) a valid nonempty page
        page')
region_then region type a valid (no_pages outside) =
    claimed_all valid refl
      (λ x. rw (outside x) (claimed-outside is_conventional_or_reserved type _))
region_then region type a valid (too_high high) = ends_high high

-- On a valid map `add_reserved_region_with_type` gives the type to every page that the region
-- touches and that was conventional or reserved, and changes no other pages.
pub add_reserved_region_with_type-Claims :
    (region : MemoryRegion) (type : EfiMemoryType) (a : PageAllocator)
    → IsValid a
    → Claims is_conventional_or_reserved type
        (takes true region)
        (EndsHigh region)
        a
        (add_reserved_region_with_type region type a)
unfolding add_reserved_region_with_type
add_reserved_region_with_type-Claims region type a valid =
    region_then region type a valid (align_region_to_pages-PagesOf true region)

coalesced_then :
    (carvable : ℕ → Bool) (type : EfiMemoryType) (inside : ℕ → Bool) (IsHigh : Type 0)
    (a : PageAllocator) {r : Result (Unit {0}) × PageAllocator}
    → Claims carvable type inside IsHigh a r
    → Claims carvable type inside IsHigh a (bind_outcome r (λ _. coalesce))
coalesced_then carvable type inside IsHigh a (claimed_all {b} valid capacity types) =
    let (c, runs, same) = coalesce-Coalesced b valid in
    rw runs (claimed_all same.valid (same.capacity ∙ capacity) (λ x. same.types x ∙ types x))
coalesced_then carvable type inside IsHigh a (cut_short valid capacity) = cut_short valid capacity
coalesced_then carvable type inside IsHigh a (ends_high h) = ends_high h

-- On a valid map `reserve_region_with_type` gives the type to every page that the region touches and
-- that was conventional or reserved, and to no other; or the buffer is full and a valid map is left,
-- or the region ends near the end of the address space and nothing changes.
pub reserve_region_with_type-Claims :
    (region : MemoryRegion) (type : EfiMemoryType) (a : PageAllocator)
    → IsValid a
    → Claims is_conventional_or_reserved type
        (takes true region)
        (EndsHigh region)
        a
        (reserve_region_with_type region type a)
unfolding reserve_region_with_type
reserve_region_with_type-Claims region type a valid =
    coalesced_then _ _ _ _ a (add_reserved_region_with_type-Claims region type a valid)
