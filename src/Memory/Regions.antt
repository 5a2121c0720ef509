-- ===== src/Memory/Regions.antt =====
-- `align_region_to_pages`: which pages a region takes.
use rustfirmware.Base.{
  ℕ, ◌+◌, ◌*◌, ◌/◌, ◌%◌, ◌≤◌, ◌<◌, ◌≡◌, Bool, true, false, ◌&&◌, Option, none, some, ok, err, arith,
  ltb, leb, if◌then◌else◌, inl, inr, Bool-cases,
}
use native.Mathlib.Decide.{dec_lt}
use rustfirmware.Base.Word.{u64_mod}
use rustfirmware.Memory.Types.{MemoryRegion, address_overflow}
use rustfirmware.Memory.Arith.{Result, align_region_to_pages}
use rustfirmware.Memory.Map.{align_down_page, align_up_page}

-- The page of an address, and whether a region takes it: with partial pages all that it touches,
-- without them those that lie inside of it.
abbrev pub page_of : ℕ → ℕ
page_of x = x / 4096 * 4096

abbrev pub takes : Bool → MemoryRegion → ℕ → Bool
takes true region x =
    ltb (page_of x) (region.base + region.size) && ltb region.base (page_of x + 4096)
takes false region x =
    leb region.base (page_of x) && leb (page_of x + 4096) (region.base + region.size)

-- The pages that a region takes, as a range, or none, or an error near the end of the address space.
pub data PagesOf (partial : Bool) (region : MemoryRegion) : Result (Option (ℕ × ℕ)) → Type 0 where
  page_range :
      (start end : ℕ)
      → start % 4096 ≡ 0
      → end % 4096 ≡ 0
      → start < end
      → end < u64_mod
      → ((x : ℕ) → (leb start x && ltb x end) ≡ takes partial region x)
      → PagesOf partial region (ok (some (start, end)))
  no_pages : ((x : ℕ) → takes partial region x ≡ false) → PagesOf partial region (ok none)
  too_high :
      u64_mod ≤ region.base + region.size + 4095 → PagesOf partial region (err address_overflow)

-- The range between two bounds, where it is not empty.
range_between :
    (partial : Bool) (region : MemoryRegion) (start end : ℕ)
    → start % 4096 ≡ 0
    → end % 4096 ≡ 0
    → end < u64_mod
    → ((x : ℕ) → (leb start x && ltb x end) ≡ takes partial region x)
    → PagesOf partial region (if leb end start then ok none else ok (some (start, end)))
range_between partial region start end aligned aligned' bound same =
    elim (Bool-cases (leb end start)) [
      | inl empty ↦ rw empty (no_pages (λ x. ground (arith, same x)))
      | inr more ↦ rw more (page_range start end aligned aligned' (ground arith) bound same)
    ]

touched :
    (base size x : ℕ)
    → (leb (base / 4096 * 4096) x && ltb x ((base + size + 4095) / 4096 * 4096))
      ≡ (ltb (page_of x) (base + size) && ltb base (page_of x + 4096))
touched base size x = ground arith

inside :
    (base size x : ℕ)
    → (leb ((base + 4095) / 4096 * 4096) x && ltb x ((base + size) / 4096 * 4096))
      ≡ (leb base (page_of x) && leb (page_of x + 4096) (base + size))
inside base size x = ground arith

-- A region becomes the range of exactly the pages that it takes: all that it touches where partial
-- pages are reserved, and those inside of it otherwise.
pub align_region_to_pages-PagesOf :
    (partial : Bool) (region : MemoryRegion)
    → PagesOf partial region (align_region_to_pages region partial)
unfolding align_region_to_pages
align_region_to_pages-PagesOf true region = elim (dec_lt (region.base + region.size) u64_mod) [
  | no over ↦
      let wraps : ltb (region.base + region.size) u64_mod ≡ false = ground arith in
      rw wraps (too_high (omega arith))
  | yes fits ↦
      let in_range : ltb (region.base + region.size) u64_mod ≡ true = ground arith in
      rw
        (
          in_range,
          align_down_page region.base (omega arith),
          align_up_page (region.base + region.size),
        )
        (elim (Bool-cases (ltb (region.base + region.size + 4095) u64_mod)) [
          | inr over ↦ rw over (too_high (ground arith))
          | inl fits' ↦ rw fits' (
              range_between true region _ _ (omega arith) (omega arith) (ground arith)
                (touched region.base region.size))
        ])
]
align_region_to_pages-PagesOf false region = elim (dec_lt (region.base + region.size) u64_mod) [
  | no over ↦
      let wraps : ltb (region.base + region.size) u64_mod ≡ false = ground arith in
      rw wraps (too_high (omega arith))
  | yes fits ↦
      let in_range : ltb (region.base + region.size) u64_mod ≡ true = ground arith in
      rw (in_range, align_down_page (region.base + region.size) fits, align_up_page region.base)
        (elim (Bool-cases (ltb (region.base + 4095) u64_mod)) [
          | inr over ↦ rw over (too_high (ground arith))
          | inl fits' ↦ rw fits' (
              range_between false region _ _ (omega arith) (omega arith) (omega arith)
                (inside region.base region.size))
        ])
]
