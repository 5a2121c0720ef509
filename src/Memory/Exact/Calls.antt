-- ===== src/Memory/Exact/Calls.antt =====
-- `allocate_exact_range` and `free_exact_range` on any valid map: every outcome of a call.
use native.Mathlib.Decide.{dec_lt}
use rustfirmware.Base.{
  ℕ, ◌+◌, ◌*◌, ◌%◌, ◌≤◌, ◌<◌, ◌≡◌, ◌≢◌, sym, ap, ◌∙◌, subst, List, ◌∷◌, ◌++◌, ok, err, arith,
  length, inl, inr, Bool-cases, true,
}
use rustfirmware.Base.Word.{u64_mod}
use rustfirmware.Memory.Types.{
  EfiMemoryDescriptor, EfiMemoryType, efi_conventional_memory, efi_reserved_memory_type, as_uint32,
  PageAllocator, address_overflow, not_found, invalid_parameter, out_of_resources,
}
use rustfirmware.Memory.Arith.{checked_end}
use rustfirmware.Memory.Find.{active, covering_from, find_descriptor_covering}
use rustfirmware.Memory.Alloc.{is_conventional_or_reserved, allocate_exact_range, free_exact_range}
use rustfirmware.Memory.Packed.{packed, spare, packed_eta}
use rustfirmware.Memory.Coalesce.{read_current}
use rustfirmware.Memory.Map.{IsMap, checked_end_lem}
use rustfirmware.Memory.Split.{IsWithin}
use rustfirmware.Memory.Split.Meaning.{IsMap-IsRange}
use rustfirmware.Memory.Exact.{
  IsValid, covering_from_cases, Ends, refused, NoneHolds, other_type, overflows, uncovered,
  type_here, allocate_at, reached, range_ends, replace_range-coalesce,
}

abbrev pub IsConventional : ℕ → Type 0
IsConventional type = type ≡ as_uint32 efi_conventional_memory

-- What `FreePages` takes back: neither free already nor reserved.
abbrev pub IsFreeable : ℕ → Type 0
IsFreeable type =
    (type ≢ as_uint32 efi_conventional_memory) × (type ≢ as_uint32 efi_reserved_memory_type)

kept_lem : (type : ℕ) → is_conventional_or_reserved type ≡ true → ¬ IsFreeable type
kept_lem type h freeable = ground (arith, freeable)

free_at :
    (pre post room : List EfiMemoryDescriptor) (d : EfiMemoryDescriptor) (memory pages : ℕ)
    → IsWithin d memory pages
    → IsMap 0 (pre ++ d ∷ post)
    → covering_from 0 memory (memory + pages * 4096) (pre ++ d ∷ post) ≡ ok (0 + length pre)
    → Ends
        (packed (pre ++ d ∷ post) room)
        memory
        pages
        efi_conventional_memory
        IsFreeable
        invalid_parameter
        (free_exact_range memory pages (packed (pre ++ d ∷ post) room))
unfolding free_exact_range
free_at pre post room d memory pages w m found =
    let type = efi_conventional_memory in
    rw
      (
        range_ends pre post room d memory pages type w m found,
        reached pre post room d memory pages type w m found,
        read_current pre post room d,
      )
      (elim (Bool-cases (is_conventional_or_reserved d.type)) [
        | inl kept ↦ rw kept (
            refused (
              other_type d.type (kept_lem d.type kept)
                (type_here pre post room d memory pages type w m)))
        | inr freeable ↦ rw freeable (
            replace_range-coalesce pre post room d memory pages type w m IsFreeable
              invalid_parameter (ground arith))
      ])

checked_end-overflow :
    (start pages : ℕ)
    → u64_mod ≤ start + pages * 4096
    → checked_end start pages ≡ err address_overflow
unfolding checked_end
checked_end-overflow start pages h = ground arith

-- The three ways through both methods, for a valid map and a range of whole pages.
module _ (a : PageAllocator) (valid : IsValid a) (memory pages : ℕ) (aligned : memory % 4096 ≡ 0)
    (nonempty : 0 < pages) where
  dispatch :
      (Goal : PageAllocator → Type 0)
      → (u64_mod ≤ memory + pages * 4096 → checked_end memory pages ≡ err address_overflow → Goal a)
      → (NoneHolds memory (memory + pages * 4096) (active a)
          → checked_end memory pages ≡ ok (memory + pages * 4096)
          → find_descriptor_covering memory (memory + pages * 4096) a ≡ err not_found
          → Goal a)
      → ((pre post room : List EfiMemoryDescriptor) (d : EfiMemoryDescriptor)
          → IsWithin d memory pages
          → IsMap 0 (pre ++ d ∷ post)
          → covering_from 0 memory (memory + pages * 4096) (pre ++ d ∷ post) ≡ ok (0 + length pre)
          → Goal (packed (pre ++ d ∷ post) room))
      → Goal a
  unfolding find_descriptor_covering
  dispatch Goal over missing found = elim (dec_lt (memory + pages * 4096) u64_mod) [
    | no wraps ↦ over (omega arith) (checked_end-overflow memory pages (omega arith))
    | yes bound ↦
        elim (covering_from_cases 0 memory (memory + pages * 4096) 0 (active a) valid.map) [
          | inr (e, none) ↦ missing none (checked_end_lem memory pages bound) e
          | inl h ↦
              let map = subst (IsMap 0) h.parts valid.map in
              let within : IsWithin h.d memory pages = record {
                range = IsMap-IsRange 0 h.pre h.post h.d map;
                aligned = aligned;
                nonempty = nonempty;
                starts = h.starts;
                ends = h.ends;
              } in
              let here =
                found h.pre h.post (spare a) h.d within map
                  (ap (covering_from 0 memory (memory + pages * 4096)) (sym h.parts) ∙ h.returns) in
              subst Goal
                (ap (λ (v : List EfiMemoryDescriptor). packed v (spare a)) (sym h.parts)
                  ∙ packed_eta a valid.fits)
                here
        ]
  ]

  -- On a valid map `allocate_exact_range` gives a range of whole pages its new type, where all of
  -- it was conventional memory, or returns an error and changes nothing.
  pub allocate_exact_range-Ends :
      (type : EfiMemoryType)
      → Ends a memory pages type IsConventional out_of_resources
          (allocate_exact_range memory pages type a)
  unfolding allocate_exact_range
  allocate_exact_range-Ends type =
      dispatch
        (λ b.
          Ends b memory pages type IsConventional out_of_resources
            (allocate_exact_range memory pages type b))
        (λ h over. rw over (refused (overflows h)))
        (λ none ends missing. rw (ends, missing) (refused (uncovered none)))
        (λ pre post room d w m found. allocate_at pre post room d memory pages type w m found)

  -- On a valid map `free_exact_range` turns a range of whole pages into conventional memory, where
  -- all of it had one type that is neither conventional nor reserved, or returns an error and
  -- changes nothing.
  pub free_exact_range-Ends :
      Ends a memory pages efi_conventional_memory IsFreeable invalid_parameter
        (free_exact_range memory pages a)
  unfolding free_exact_range
  free_exact_range-Ends =
      dispatch
        (λ b.
          Ends b memory pages efi_conventional_memory IsFreeable invalid_parameter
            (free_exact_range memory pages b))
        (λ h over. rw over (refused (overflows h)))
        (λ none ends missing. rw (ends, missing) (refused (uncovered none)))
        (λ pre post room d w m found. free_at pre post room d memory pages w m found)
