-- ===== src/Gpt/Entry/Sound.antt =====
-- Reading an entry through a sound header: which sector is read, and what an entry that is returned
-- tells about the device.
use rustfirmware.Base.{
  ℕ, ◌+◌, ◌-◌, ◌*◌, ◌/◌, ◌%◌, ◌≤◌, ◌<◌, ◌≡◌, refl, sym, ap, ◌∙◌, subst, false, ◌||◌, List, none,
  some, arith, ltb, leb, if◌then◌else◌, Option-cases, inl, inr,
}
use native.Mathlib.Nat.{mul-le-mul_right, mul_assoc, mul-mod_left}
use rustfirmware.Base.Maybe.{some_inj, none_some, ◌>>=◌, guard_passed, step_value}
use rustfirmware.Base.Word.{u64_mod, checked_add, checked_mul, saturating_add}
use rustfirmware.Gpt.Bytes.{get, read_u64, copy_16}
use rustfirmware.Gpt.Device.{BlockDevice}
use rustfirmware.Gpt.Header.{GptHeader, div_ceil}
use rustfirmware.Gpt.Header.Array.{IsSound, array_bytes, array_end}
use rustfirmware.Gpt.Entry.{
  GptPartitionEntry, required_entry_sectors, partition_name_from, decode_entry,
  read_partition_entry, sector_count,
}

-- The place of an entry in the array, in bytes.
abbrev pub entry_offset : GptHeader → ℕ → ℕ
entry_offset header index = index * header.partition_entry_size

units_mod : (index size : ℕ) → size % 128 ≡ 0 → index * size % 128 ≡ 0
units_mod index size h =
    let exact : size ≡ size / 128 * 128 = omega arith in
    let product : index * size ≡ index * (size / 128) * 128 =
      ap (λ (n : ℕ). index * n) exact ∙ sym (mul_assoc index (size / 128) 128) in
    ap (λ (n : ℕ). n % 128) product ∙ mul-mod_left (index * (size / 128)) 128

module _ (device : BlockDevice) (header_lba : ℕ) (header : GptHeader)
    (sound : IsSound device header_lba header) (index : ℕ)
    (within : index < header.partition_entry_count) where
  offset_unit : entry_offset header index % 128 ≡ 0
  offset_unit = units_mod index header.partition_entry_size sound.size_unit

  offset_end : entry_offset header index + 128 ≤ array_bytes header
  offset_end = omega (
    arith,
    sound.size_min,
    mul-le-mul_right {m = index + 1} {n = header.partition_entry_count} header.partition_entry_size
        (omega arith),
  )

  offset_lba : header.partition_entry_lba + entry_offset header index / 512 < array_end header
  offset_lba = ground (arith, offset_end)

  -- Through a sound header an entry is read with one sector of the entry array, which lies on the
  -- device.
  pub read_partition_entry-one_sector :
      (header.partition_entry_lba + entry_offset header index / 512 < device.sector_count)
      × (read_partition_entry device header index ≡ (
          device.read_blocks (header.partition_entry_lba + entry_offset header index / 512) 512
          >>= λ sector. get sector (entry_offset header index % 512) 128 >>= λ entry.
              decode_entry device entry))
  unfolding read_partition_entry required_entry_sectors
  read_partition_entry-one_sector =
      let present : leb header.partition_entry_count index ≡ false = ground arith in
      let product : checked_mul index header.partition_entry_size
          ≡ some (entry_offset header index) =
        ground (arith, offset_end, sound.bounded) in
      let sum : checked_add header.partition_entry_lba (entry_offset header index / 512)
          ≡ some (header.partition_entry_lba + entry_offset header index / 512) =
        ground (arith, offset_lba, sound.ends_bounded) in
      let needed : checked_add (entry_offset header index % 512) 128
          ≡ some (entry_offset header index % 512 + 128) =
        ground arith in
      let one : div_ceil (entry_offset header index % 512 + 128) 512 ≡ 1 =
        ground (arith, offset_unit) in
      (omega (arith, offset_lba, sound.ends), rw (present, product, sum, needed, one) refl)

-- The fields of an entry after its guard.
record IsInRange (device : BlockDevice) (entry : GptPartitionEntry) : Type 0 where
  ordered : entry.first_lba ≤ entry.last_lba
  inside : entry.last_lba < device.sector_count

with_attributes :
    (device : BlockDevice) (name type_guid unique_guid : List ℕ) (first last attributes : ℕ)
    (entry : GptPartitionEntry)
    → (if ltb last first || leb device.sector_count last
        then none
        else some (record {
          partition_type_guid = type_guid;
          unique_partition_guid = unique_guid;
          first_lba = first;
          last_lba = last;
          attributes = attributes;
          partition_name = name;
        }))
      ≡ some entry
    → IsInRange device entry
with_attributes device name type_guid unique_guid first last attributes entry h =
    let (range, same) = guard_passed (ltb last first || leb device.sector_count last) _ h in
    subst (IsInRange device) (some_inj same)
      (record { ordered = ground arith; inside = ground arith })

decode_entry-IsInRange :
    (device : BlockDevice) (bytes : List ℕ) (entry : GptPartitionEntry)
    → decode_entry device bytes ≡ some entry
    → IsInRange device entry
unfolding decode_entry
decode_entry-IsInRange device bytes entry h =
    elim (Option-cases (partition_name_from 36 bytes 56)) [
      | inl e ↦ none_some (rw e at h)
      | inr (name, e) ↦ elim (Option-cases (copy_16 bytes 0)) [
        | inl f ↦ none_some (rw (e, f) at h)
        | inr (type_guid, f) ↦ elim (Option-cases (copy_16 bytes 16)) [
          | inl g ↦ none_some (rw (e, f, g) at h)
          | inr (unique_guid, g) ↦ elim (Option-cases (read_u64 bytes 32)) [
            | inl i ↦ none_some (rw (e, f, g, i) at h)
            | inr (first, i) ↦ elim (Option-cases (read_u64 bytes 40)) [
              | inl j ↦ none_some (rw (e, f, g, i, j) at h)
              | inr (last, j) ↦ elim (Option-cases (read_u64 bytes 48)) [
                | inl k ↦ none_some (rw (e, f, g, i, j, k) at h)
                | inr (attributes, k) ↦
                    with_attributes device name type_guid unique_guid first last attributes entry
                      (rw (e, f, g, i, j, k) at h)
              ]
            ]
          ]
        ]
      ]
    ]

-- An entry that is read through a sound header is a range of sectors of the device, and
-- `sector_count` is the number of them.
pub read_partition_entry-sectors :
    (device : BlockDevice) (header_lba : ℕ) (header : GptHeader) (index : ℕ)
    (entry : GptPartitionEntry)
    → IsSound device header_lba header
    → index < header.partition_entry_count
    → device.sector_count < u64_mod
    → read_partition_entry device header index ≡ some entry
    → (entry.first_lba ≤ entry.last_lba)
      × (entry.first_lba + sector_count entry ≡ entry.last_lba + 1)
      × (entry.first_lba + sector_count entry ≤ device.sector_count)
unfolding sector_count
read_partition_entry-sectors device header_lba header index entry sound within words h =
    let (_, reads) = read_partition_entry-one_sector device header_lba header sound index within in
    let (sector, h1, _) =
      step_value
        (device.read_blocks (header.partition_entry_lba + entry_offset header index / 512) 512)
        (λ sector.
          get sector (entry_offset header index % 512) 128 >>= λ bytes. decode_entry device bytes)
        (sym reads ∙ h) in
    let (bytes, h2, _) =
      step_value (get sector (entry_offset header index % 512) 128)
        (λ bytes. decode_entry device bytes) h1 in
    let range = decode_entry-IsInRange device bytes entry h2 in
    let count : saturating_add (entry.last_lba - entry.first_lba) 1
        ≡ entry.last_lba - entry.first_lba + 1 =
      ground (arith, range.ordered, range.inside) in
    (
      range.ordered,
      rw count (omega (arith, range.ordered)),
      rw count (omega (arith, range.ordered, range.inside)),
    )
