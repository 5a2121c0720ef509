-- ===== src/Memory/Split.antt =====
-- `replace_range`: the descriptor at an index is split, and the range gets its new type.
pub mod Meaning
use rustfirmware.Base.{
  ℕ, suc, ◌+◌, ◌-◌, ◌*◌, ◌/◌, ◌%◌, ◌≤◌, ◌<◌, ◌≡◌, refl, ap, ◌∙◌, Bool, true, false, List, [], ◌∷◌,
  ◌++◌, some, ok, err, arith, length, length-append, drop, ltb, leb, ◌==◌, ◌||◌, if◌then◌else◌,
}
use rustfirmware.Base.Word.{u64_mod, wrapping_sub}
use rustfirmware.Memory.Types.{
  EfiMemoryDescriptor, EfiMemoryType, as_uint32, MemoryError, PageAllocator, buffer_too_small,
  invalid_parameter,
}
use rustfirmware.Memory.Arith.{descriptor_end, checked_end, bytes_to_pages}
use rustfirmware.Memory.Buffer.{replace_descriptor}
use rustfirmware.Memory.Alloc.{part, replace_range}
use rustfirmware.Memory.Packed.{packed, replace_descriptor-packed, replace_descriptor-full}
use rustfirmware.Memory.Map.{end_of, IsRange, descriptor_end_lem, checked_end_lem}
use rustfirmware.Memory.Coalesce.{read_current}

-- The range that a call is to change: whole pages inside one descriptor.
pub record IsWithin (d : EfiMemoryDescriptor) (memory pages : ℕ) : Type 0 where
  pub range : IsRange d
  pub aligned : memory % 4096 ≡ 0
  pub nonempty : 0 < pages
  pub starts : d.physical_start ≤ memory
  pub ends : memory + pages * 4096 ≤ end_of d

module _ (d : EfiMemoryDescriptor) (memory pages : ℕ) where
  abbrev pub pages_before : ℕ
  pages_before = (memory - d.physical_start) / 4096

  abbrev pub pages_after : ℕ
  pages_after = (end_of d - (memory + pages * 4096)) / 4096

  abbrev pub middle : EfiMemoryType → EfiMemoryDescriptor
  middle type = record {
    type = as_uint32 type;
    physical_start = memory;
    virtual_start = 0;
    number_of_pages = pages;
    attribute = d.attribute;
  }

  -- The one to three descriptors that take the place of `d`.
  unfoldable pub pieces : EfiMemoryType → List EfiMemoryDescriptor
  unfolding part
  pieces type =
      part d d.physical_start d.virtual_start pages_before
      ++ middle type ∷ part d (memory + pages * 4096) 0 pages_after

  pub pieces-nonempty : (type : EfiMemoryType) → 0 < length (pieces type)
  unfolding pieces
  pieces-nonempty type = ground arith

  pub pieces-few : (type : EfiMemoryType) → length (pieces type) ≤ 3
  unfolding pieces part
  pieces-few type = ground arith

  -- Where the loop of a caller goes on.
  abbrev pub next_index : ℕ → ℕ
  next_index index = if pages_before == 0 then index + 1 else index + 2

-- The call at `d`, with room for the pieces and without.
module _ (pre post room : List EfiMemoryDescriptor) (d : EfiMemoryDescriptor) (memory pages : ℕ)
    (type : EfiMemoryType) (w : IsWithin d memory pages) where
  inside : (ltb memory d.physical_start || ltb (end_of d) (memory + pages * 4096)) ≡ false
  inside = ground (arith, w.starts, w.ends)

  before : (memory + u64_mod - d.physical_start) % u64_mod ≡ memory - d.physical_start
  before = omega (arith, w.range.bounded, w.starts, w.ends)

  after :
      (end_of d + u64_mod - (memory + pages * 4096)) % u64_mod ≡ end_of d - (memory + pages * 4096)
  after = omega (arith, w.range.bounded, w.starts, w.ends)

  range_end : checked_end memory pages ≡ ok (memory + pages * 4096)
  range_end = checked_end_lem memory pages (omega (arith, w.range.bounded, w.ends))

  pub replace_range-packed :
      length (pieces d memory pages type) - 1 ≤ length room
      → replace_range (length pre) memory pages type (packed (pre ++ d ∷ post) room) ≡ (
        ok (next_index d memory pages (length pre)),
        packed
            (pre ++ (pieces d memory pages type ++ post))
            (drop (length (pieces d memory pages type) - 1) room),
      )
  unfolding replace_range bytes_to_pages pieces
  replace_range-packed h = rw (
    read_current pre post room d,
    descriptor_end_lem d w.range,
    range_end,
    inside,
    before,
    after,
    replace_descriptor-packed pre post d room (pieces d memory pages type)
        (pieces-nonempty d memory pages type) h,
  )

  pub replace_range-full :
      length room < length (pieces d memory pages type) - 1
      → replace_range (length pre) memory pages type (packed (pre ++ d ∷ post) room)
        ≡ (err buffer_too_small, packed (pre ++ d ∷ post) room)
  unfolding replace_range bytes_to_pages pieces
  replace_range-full h = rw (
    read_current pre post room d,
    descriptor_end_lem d w.range,
    range_end,
    inside,
    before,
    after,
    replace_descriptor-full pre post d room (pieces d memory pages type)
        (pieces-nonempty d memory pages type) h,
  )
