-- ===== src/Memory/Buffer.antt =====
-- src/memory.rs: the methods that edit the descriptor buffer in place. An index that the source
-- reads past the end of the buffer is a panic.
use rustfirmware.Base.{
  ℕ, zero, suc, ◌+◌, ◌-◌, ◌||◌, List, ok, err, panic, out_of_fuel, length, ltb, leb, ◌==◌,
  if◌then◌else◌, read, write, shift_right, shift_left, write_all,
}
use rustfirmware.Base.Word.{wrapping_sub}
use rustfirmware.Memory.Types.{
  EfiMemoryDescriptor, MemoryError, invalid_parameter, buffer_too_small,
}
use rustfirmware.Memory.Arith.{Result, bytes_to_pages, descriptor_end, descriptors_are_compatible}
use rustfirmware.Memory.Monad.{Method, ◌>>=◌, ◌>>◌, lift, pure, self, put}

-- The loop of `insert_sorted`, with `n` descriptors left from `index` on.
unfoldable pub sorted_index : ℕ → ℕ → EfiMemoryDescriptor → List EfiMemoryDescriptor → Result ℕ
sorted_index zero index d descriptors = ok index
sorted_index (suc n) index d descriptors =
    let rest = sorted_index n (index + 1) d descriptors in
    elim (read {E = MemoryError} descriptors index) [
      | ok entry ↦ if leb entry.physical_start d.physical_start then rest else ok index
      | _ ↦ panic
    ]

unfoldable pub insert_descriptor : ℕ → EfiMemoryDescriptor → Method (Unit {0})
insert_descriptor index descriptor = do
  a ← self
  if a.descriptor_count == length a.descriptors || ltb a.descriptor_count index
      then lift (err buffer_too_small)
      else do
        shifted ← lift (shift_right 1 (a.descriptor_count - index) index a.descriptors)
        written ← lift (write shifted index descriptor)
        put (record { descriptors = written; descriptor_count = a.descriptor_count + 1 })

unfoldable pub insert_sorted : EfiMemoryDescriptor → Method (Unit {0})
unfolding sorted_index insert_descriptor
insert_sorted descriptor = do
  a ← self
  index ← lift (sorted_index a.descriptor_count 0 descriptor a.descriptors)
  insert_descriptor index descriptor

-- `replacements` is never longer than three; an empty one is refused.
unfoldable pub replace_descriptor : ℕ → List EfiMemoryDescriptor → Method (Unit {0})
replace_descriptor index replacements = do
  a ← self
  if leb a.descriptor_count index || length replacements == 0
      then lift (err invalid_parameter)
      else let new_count = a.descriptor_count - 1 + length replacements in
        let growth = length replacements - 1 in
        if ltb (length a.descriptors) new_count then lift (err buffer_too_small) else do
          shifted ← lift (
              if ltb 1 (length replacements)
              then shift_right growth (a.descriptor_count - (index + 1)) (index + 1) a.descriptors
              else ok a.descriptors)
          written ← lift (write_all index replacements shifted)
          put (record { descriptors = written; descriptor_count = new_count })

-- `descriptor_end(next).unwrap_or(next.PhysicalStart)`.
end_or : Result ℕ → ℕ → ℕ
end_or (ok end) start = end
end_or _ start = start

-- The descriptor that takes the place of two compatible ones.
unfoldable pub merged : EfiMemoryDescriptor → EfiMemoryDescriptor → EfiMemoryDescriptor
unfolding end_or descriptor_end bytes_to_pages
merged current next =
    let next_end = end_or (descriptor_end next) next.physical_start in
    record current {
      number_of_pages = bytes_to_pages (wrapping_sub next_end current.physical_start);
    }

-- One step of `coalesce` at `index` where the two descriptors there are compatible.
unfoldable pub merge_at : ℕ → EfiMemoryDescriptor → Method (Unit {0})
merge_at index descriptor = do
  a ← self
  written ← lift (write a.descriptors index descriptor)
  moved ← lift (shift_left (a.descriptor_count - (index + 2)) (index + 2) written)
  put (record { descriptors = moved; descriptor_count = a.descriptor_count - 1 })

unfoldable pub coalesce_loop : ℕ → ℕ → Method (Unit {0})
unfolding merge_at
coalesce_loop zero index = lift out_of_fuel
coalesce_loop (suc fuel) index = do
  a ← self
  let stay = coalesce_loop fuel index
  let advance = coalesce_loop fuel (index + 1)
  if ltb (index + 1) a.descriptor_count
      then (do
        current ← lift (read a.descriptors index)
        next ← lift (read a.descriptors (index + 1))
        if descriptors_are_compatible current next
            then merge_at index (merged current next) >> stay
            else advance)
      else pure tt

-- Each round advances `index` or removes a descriptor.
unfoldable pub coalesce : Method (Unit {0})
unfolding coalesce_loop
coalesce = do a ← self; coalesce_loop (suc a.descriptor_count) 0
