-- ===== src/Memory/Build/Firmware.antt =====
-- The ranges of the linker script, as `from_regions` adds them.
use rustfirmware.Base.{
  ℕ, ◌-◌, ◌<◌, ◌≡◌, refl, ap, ◌∙◌, Bool, true, false, ◌&&◌, Option, none, some, ok, err, arith,
  subst, panic, out_of_fuel, ltb, leb,
}
use native.Mathlib.Decide.{dec_le}
use rustfirmware.Base.Word.{u64_mod, wrapping_sub}
use rustfirmware.Memory.Types.{
  EfiMemoryType, efi_boot_services_code, efi_boot_services_data, MemoryRegion, PageAllocator,
}
use rustfirmware.Memory.Arith.{Result, linker_region}
use rustfirmware.Memory.Monad.{Method, bind_outcome}
use rustfirmware.Memory.Find.{active}
use rustfirmware.Memory.Alloc.{is_conventional}
use rustfirmware.Memory.Build.{LinkerLayout, add_firmware_region, add_firmware_regions}
use rustfirmware.Memory.Map.{type_at}
use rustfirmware.Memory.Exact.{IsValid}
use rustfirmware.Memory.Regions.{
  takes, PagesOf, page_range, no_pages, too_high, align_region_to_pages-PagesOf,
}
use rustfirmware.Memory.Carve.Calls.{
  claimed, Claims, claimed_all, cut_short, ends_high, carve_range-Claims,
}
use rustfirmware.Memory.Build.Maps.{Maps, mapped, failed, Maps-then}

-- The pages that a range of the linker script touches.
abbrev pub linker_takes : ℕ → ℕ → ℕ → Bool
linker_takes start end x =
    ltb start end && takes true (record { base = start; size = end - start }) x

pub unclaimed : (t : EfiMemoryType) (o : Option ℕ) → o ≡ claimed is_conventional false t o
unclaimed t none = refl
unclaimed t (some old) = refl

pub range-Maps :
    (region : MemoryRegion) (type : EfiMemoryType) (a : PageAllocator) {r : Result (Option (ℕ × ℕ))}
    → IsValid a
    → PagesOf true region r
    → Maps
        (λ x o. claimed is_conventional (takes true region x) type o)
        a
        (bind_outcome (r, a) λ range. add_firmware_region range type)
unfolding add_firmware_region
range-Maps region type a valid (page_range start end page page' nonempty _ same) =
    widen (carve_range-Claims start end type a valid nonempty page page')
  where
    widen :
        {r : Result (Unit {0}) × PageAllocator}
        → Claims is_conventional type (λ x. leb start x && ltb x end) ⊥ a r
        → Maps (λ x o. claimed is_conventional (takes true region x) type o) a r
    widen (claimed_all valid' capacity types) = mapped valid' capacity (λ x.
        types x ∙ ap (λ (i : Bool). claimed is_conventional i type (type_at (active a) x)) (same x))
    widen (cut_short _ _) = failed
    widen (ends_high h) = failed
range-Maps region type a valid (no_pages outside) =
    mapped valid refl (λ x. rw (outside x) (unclaimed type (type_at (active a) x)))
range-Maps region type a valid (too_high high) = failed

pub linker_region-Maps :
    (start end : ℕ) (type : EfiMemoryType) (a : PageAllocator)
    → end < u64_mod
    → IsValid a
    → Maps
        (λ x o. claimed is_conventional (linker_takes start end x) type o)
        a
        (bind_outcome (linker_region start end, a) λ range. add_firmware_region range type)
unfolding linker_region add_firmware_region
linker_region-Maps start end type a bound valid = elim (dec_le end start) [
  | yes empty ↦
      let nothing : leb end start ≡ true = ground arith in
      let outside : ltb start end ≡ false = ground arith in
      rw nothing (mapped valid refl (λ x. rw outside (unclaimed type (type_at (active a) x))))
  | no some_bytes ↦
      let more : leb end start ≡ false = ground arith in
      let inside : ltb start end ≡ true = ground arith in
      let size : wrapping_sub end start ≡ end - start = omega arith in
      rw (more, size, inside)
        (range-Maps (record { base = start; size = end - start }) type a valid
          (align_region_to_pages-PagesOf true (record { base = start; size = end - start })))
]

-- The order in which a `do` block nests does not matter.
pub bind_assoc :
    {A : Type 0} (r : Result A) (a : PageAllocator) (f : A → Method (Unit {0}))
    (next : Method (Unit {0}))
    → bind_outcome (bind_outcome (r, a) f) (λ _. next)
      ≡ bind_outcome (r, a) (λ x. λ b. bind_outcome (f x b) (λ _. next))
bind_assoc (ok x) a f next = refl
bind_assoc (err e) a f next = refl
bind_assoc panic a f next = refl
bind_assoc out_of_fuel a f next = refl

pub firmware_step :
    (start end : ℕ) (type : EfiMemoryType) (g : ℕ → Option ℕ → Option ℕ) (next : Method (Unit {0}))
    (a : PageAllocator)
    → end < u64_mod
    → IsValid a
    → ((b : PageAllocator) → IsValid b → Maps g b (next b))
    → Maps
        (λ x o. g x (claimed is_conventional (linker_takes start end x) type o))
        a
        (bind_outcome
          (linker_region start end, a)
          (λ range. λ b. bind_outcome (add_firmware_region range type b) (λ _. next)))
firmware_step start end type g next a bound valid later =
    subst (Maps (λ x o. g x (claimed is_conventional (linker_takes start end x) type o)) a)
      (bind_assoc (linker_region start end) a (λ range. add_firmware_region range type) next)
      (Maps-then (λ x o. claimed is_conventional (linker_takes start end x) type o) g a next
        (linker_region-Maps start end type a bound valid) (λ b valid_b _. later b valid_b))

-- The linker script's addresses are words.
pub record IsLinked (layout : LinkerLayout) : Type 0 where
  pub code : layout.firmware_code_end < u64_mod
  pub statics : layout.firmware_data_end < u64_mod
  pub heap : layout.firmware_heap_end < u64_mod
  pub stack : layout.firmware_stack_top < u64_mod

-- The four ranges of the firmware, each over what is still conventional.
module _ (layout : LinkerLayout) (x : ℕ) where
  abbrev with_code : Option ℕ → Option ℕ
  with_code =
      claimed is_conventional (linker_takes layout.firmware_code_start layout.firmware_code_end x)
        efi_boot_services_code

  abbrev with_data : ℕ → ℕ → Option ℕ → Option ℕ
  with_data start end = claimed is_conventional (linker_takes start end x) efi_boot_services_data

  abbrev pub with_firmware : Option ℕ → Option ℕ
  with_firmware o = with_data layout.firmware_stack_bottom layout.firmware_stack_top (
      with_data layout.firmware_heap_start layout.firmware_heap_end
        (with_data layout.firmware_data_start layout.firmware_data_end (with_code o)))

pub firmware-Maps :
    (layout : LinkerLayout) (a : PageAllocator)
    → IsLinked layout
    → IsValid a
    → Maps (with_firmware layout) a (add_firmware_regions layout a)
unfolding add_firmware_regions
firmware-Maps layout a linked valid =
    firmware_step layout.firmware_code_start layout.firmware_code_end efi_boot_services_code _ _ a
      linked.code valid
      λ b valid_b.
        firmware_step layout.firmware_data_start layout.firmware_data_end efi_boot_services_data _ _
          b linked.statics valid_b
          λ c valid_c.
            firmware_step layout.firmware_heap_start layout.firmware_heap_end efi_boot_services_data
              _ _ c linked.heap valid_c
              λ d valid_d.
                linker_region-Maps layout.firmware_stack_bottom layout.firmware_stack_top
                  efi_boot_services_data d linked.stack valid_d
