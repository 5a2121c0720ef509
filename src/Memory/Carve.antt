-- ===== src/Memory/Carve.antt =====
-- The carving loop of `carve_range` and `carve_range_for_reserved_region`: what one round does.
pub mod Meaning
pub mod Calls
use rustfirmware.Base.{
  ℕ, suc, ◌+◌, ◌-◌, ◌*◌, ◌/◌, ◌%◌, ◌≤◌, ◌<◌, ◌≡◌, refl, ap, ◌∙◌, Bool, true, false, not, List, [],
  ◌∷◌, ◌++◌, some, ok, err, arith, length, length-append, append_assoc, drop, ltb, leb, ◌==◌,
  if◌then◌else◌, min, max,
}
use rustfirmware.Base.Word.{u64_mod, wrapping_sub}
use rustfirmware.Memory.Types.{EfiMemoryDescriptor, EfiMemoryType, PageAllocator, buffer_too_small}
use rustfirmware.Memory.Arith.{bytes_to_pages, descriptor_end}
use rustfirmware.Memory.Alloc.{part, replace_range, carve_loop}
use rustfirmware.Memory.Packed.{packed}
use rustfirmware.Memory.Map.{end_of, IsRange, descriptor_end_lem}
use rustfirmware.Memory.Coalesce.{read_current}
use rustfirmware.Memory.Split.{
  IsWithin, pieces, pages_before, pages_after, middle, next_index, replace_range-packed,
  replace_range-full,
}

-- The pages that `d` and the range from `start` to `end` share.
abbrev pub first_page : EfiMemoryDescriptor → ℕ → ℕ
first_page d start = max d.physical_start start

abbrev pub shared_pages : EfiMemoryDescriptor → ℕ → ℕ → ℕ
shared_pages d start end = (min (end_of d) end - first_page d start) / 4096

module _ (carvable : ℕ → Bool) (start end : ℕ) (type : EfiMemoryType) (fuel : ℕ)
    (pre rest room : List EfiMemoryDescriptor) (d : EfiMemoryDescriptor) (r : IsRange d) where
  more : ltb (length pre) (length (pre ++ d ∷ rest)) ≡ true
  more = ground (arith, length-append pre (d ∷ rest))

  grown : length (pre ++ d ∷ []) ≡ length pre + 1
  grown = omega (arith, length-append pre (d ∷ []))

  -- A round that leaves `d` as it is.
  abbrev pub Skips : Type 0
  Skips =
      carve_loop carvable (suc fuel) start end type (length pre) (packed (pre ++ d ∷ rest) room)
      ≡ carve_loop carvable fuel start end type (length (pre ++ d ∷ []))
          (packed ((pre ++ d ∷ []) ++ rest) room)

  pub round-before : end_of d ≤ start → Skips
  unfolding carve_loop
  round-before h =
      let before : leb (end_of d) start ≡ true = ground arith in
      rw (more, read_current pre rest room d, descriptor_end_lem d r, before)
        (rw (grown, append_assoc pre (d ∷ []) rest))

  pub round-kept : start < end_of d → d.physical_start < end → carvable d.type ≡ false → Skips
  unfolding carve_loop
  round-kept h k kept =
      let before : leb (end_of d) start ≡ false = ground arith in
      let past : leb end d.physical_start ≡ false = ground arith in
      rw (more, read_current pre rest room d, descriptor_end_lem d r, before, past, kept)
        (rw (grown, append_assoc pre (d ∷ []) rest))

  pub round-past :
      start < end_of d
      → end ≤ d.physical_start
      → carve_loop carvable (suc fuel) start end type (length pre) (packed (pre ++ d ∷ rest) room)
        ≡ (ok tt, packed (pre ++ d ∷ rest) room)
  unfolding carve_loop
  round-past h k =
      let before : leb (end_of d) start ≡ false = ground arith in
      let past : leb end d.physical_start ≡ true = ground arith in
      rw (more, read_current pre rest room d, descriptor_end_lem d r, before, past)

  module _ (h : start < end_of d) (k : d.physical_start < end) (nonempty : start < end)
      (free : carvable d.type ≡ true) (page : start % 4096 ≡ 0) (page' : end % 4096 ≡ 0) where
    abbrev pub memory : ℕ
    memory = first_page d start

    abbrev pub pages : ℕ
    pages = shared_pages d start end

    pub shared-IsWithin : IsWithin d memory pages
    shared-IsWithin = record {
      range = r;
      aligned = ground (arith, r.aligned);
      nonempty = omega (arith, r.aligned);
      starts = omega arith;
      ends = omega (arith, r.aligned);
    }

    count : bytes_to_pages (wrapping_sub (min (end_of d) end) memory) ≡ pages
    unfolding bytes_to_pages
    count =
        let exact : wrapping_sub (min (end_of d) end) memory ≡ min (end_of d) end - memory =
          omega (arith, r.bounded) in
        rw exact

    -- A round that gives the shared pages their new type, where the buffer has room.
    pub round-carved :
        length (pieces d memory pages type) - 1 ≤ length room
        → carve_loop carvable (suc fuel) start end type (length pre) (packed (pre ++ d ∷ rest) room)
          ≡ carve_loop carvable fuel start end type (next_index d memory pages (length pre)) (
              packed
                (pre ++ (pieces d memory pages type ++ rest))
                (drop (length (pieces d memory pages type) - 1) room))
    unfolding carve_loop
    round-carved fits =
        let before : leb (end_of d) start ≡ false = ground arith in
        let past : leb end d.physical_start ≡ false = ground arith in
        rw (
          more,
          read_current pre rest room d,
          descriptor_end_lem d r,
          before,
          past,
          free,
          count,
          replace_range-packed pre rest room d memory pages type shared-IsWithin fits,
        )

    pub round-full :
        length room < length (pieces d memory pages type) - 1
        → carve_loop carvable (suc fuel) start end type (length pre) (packed (pre ++ d ∷ rest) room)
          ≡ (err buffer_too_small, packed (pre ++ d ∷ rest) room)
    unfolding carve_loop
    round-full few =
        let before : leb (end_of d) start ≡ false = ground arith in
        let past : leb end d.physical_start ≡ false = ground arith in
        rw (
          more,
          read_current pre rest room d,
          descriptor_end_lem d r,
          before,
          past,
          free,
          count,
          replace_range-full pre rest room d memory pages type shared-IsWithin few,
        )
