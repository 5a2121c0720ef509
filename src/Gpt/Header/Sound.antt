-- ===== src/Gpt/Header/Sound.antt =====
-- What `read_header_at` has checked of a header that it returns.
use rustfirmware.Base.{
  ℕ, ◌-◌, ◌≤◌, ◌≡◌, ap, ◌∙◌, true, not, ◌||◌, List, none, some, arith, Option-cases, Bool-cases,
  take, ◌⊎◌, inl, inr, ltb, leb, ◌==◌, ◌!=◌,
}
use rustfirmware.Base.Maybe.{none_some, guard_passed, or_else-cases}
use rustfirmware.Gpt.Bytes.{read_u32, read_u64}
use rustfirmware.Gpt.Crc.{crc32}
use rustfirmware.Gpt.Device.{BlockDevice, virtio_sector_size}
use rustfirmware.Base.Bytes.{bytes_eq}
use rustfirmware.Gpt.Header.{
  gpt_signature, GptHeader, verify_entry_array_crc, header_bytes, read_usable_range, read_header_at,
  read_primary_header, read_backup_header, new_table,
}
use rustfirmware.Gpt.Header.Array.{
  array_bytes, IsSound, IsArray, negated_guard, read_entry_array-IsArray,
}

-- The header is sound, and stands in its sector of the device: the sector begins with the signature,
-- names itself and the checksum of its own bytes, has the fields of the header at their places, and
-- names the checksum of the entry array.
pub record IsChecked (device : BlockDevice) (header_lba : ℕ) (header : GptHeader) : Type 0 where
  pub sound : IsSound device header_lba header
  pub open sound use *
  pub sector : List ℕ
  pub reads : device.read_blocks header_lba 512 ≡ some sector
  pub signed : bytes_eq (take 8 sector) gpt_signature ≡ true
  pub header_size : ℕ
  pub header_size_field : read_u32 sector 12 ≡ some header_size
  pub header_size_min : 92 ≤ header_size
  pub header_size_max : header_size ≤ 512
  pub header_crc_field : read_u32 sector 16 ≡ some (crc32 (header_bytes sector header_size))
  pub own_lba_field : read_u64 sector 24 ≡ some header_lba
  pub entry_lba_field : read_u64 sector 72 ≡ some header.partition_entry_lba
  pub entry_count_field : read_u32 sector 80 ≡ some header.partition_entry_count
  pub entry_size_field : read_u32 sector 84 ≡ some header.partition_entry_size
  pub array_crc : ℕ
  pub array_crc_field : read_u32 sector 88 ≡ some array_crc
  pub array_verified :
      verify_entry_array_crc device header.partition_entry_lba (array_bytes header) array_crc ≡ true

-- The header's own place, and its array.
read_usable_range-IsArray :
    (device : BlockDevice) (header_lba : ℕ) (sector : List ℕ) (header : GptHeader)
    → read_usable_range device header_lba sector ≡ some header
    → (read_u64 sector 24 ≡ some header_lba) × IsArray device header_lba sector header
unfolding read_usable_range
read_usable_range-IsArray device header_lba sector header h =
    elim (Option-cases (read_u64 sector 24)) [
      | inl e ↦ none_some (rw e at h)
      | inr (current, e) ↦
          let (here, h1) = guard_passed (current != header_lba) _ (rw e at h) in
          let own : current ≡ header_lba = ground arith in
          elim (Option-cases (read_u64 sector 32)) [
            | inl f ↦ none_some (rw f at h1)
            | inr (backup, f) ↦
                let (other, h2) =
                  guard_passed (leb device.sector_count backup || backup == current) _
                    (rw f at h1) in
                elim (Option-cases (read_u64 sector 40)) [
                  | inl g ↦ none_some (rw g at h2)
                  | inr (first, g) ↦ elim (Option-cases (read_u64 sector 48)) [
                    | inl k ↦ none_some (rw (g, k) at h2)
                    | inr (last, k) ↦
                        let (usable, h3) =
                          guard_passed (ltb last first || leb device.sector_count last) _
                            (rw (g, k) at h2) in
                        (
                          e ∙ ap some own,
                          read_entry_array-IsArray device header_lba sector header h3,
                        )
                  ]
                ]
          ]
    ]

-- Every header that `read_header_at` returns stands in the sector: that begins with the signature and
-- has a checksum of its own bytes, its own address, and at their places the fields of the header. The
-- entries have a supported size, and their array is a range of sectors of the device that does not hold
-- the header, and has the checksum that the sector names at byte 88.
pub read_header_at-IsChecked :
    (device : BlockDevice) (header_lba : ℕ) (header : GptHeader)
    → read_header_at device header_lba ≡ some header
    → IsChecked device header_lba header
unfolding read_header_at
read_header_at-IsChecked device header_lba header h =
    elim (Option-cases (device.read_blocks header_lba virtio_sector_size)) [
      | inl e ↦ none_some (rw e at h)
      | inr (sector, e) ↦
          let (signed, h1) =
            guard_passed (not (bytes_eq (take 8 sector) gpt_signature)) _ (rw e at h) in
          elim (Option-cases (read_u32 sector 12)) [
            | inl f ↦ none_some (rw f at h1)
            | inr (size, f) ↦
                let (fits, h2) = guard_passed (ltb size 92 || ltb 512 size) _ (rw f at h1) in
                elim (Option-cases (read_u32 sector 16)) [
                  | inl g ↦ none_some (rw g at h2)
                  | inr (crc, g) ↦
                      let (checked, h3) =
                        guard_passed (crc32 (header_bytes sector size) != crc) _ (rw g at h2) in
                      let same : crc ≡ crc32 (header_bytes sector size) = ground arith in
                      let (own, p) = read_usable_range-IsArray device header_lba sector header h3 in
                      record {
                        sound = p.sound;
                        sector = sector;
                        reads = e;
                        signed = negated_guard _ signed;
                        header_size = size;
                        header_size_field = f;
                        header_size_min = ground arith;
                        header_size_max = ground arith;
                        header_crc_field = g ∙ ap some same;
                        own_lba_field = own;
                        entry_lba_field = p.entry_lba_field;
                        entry_count_field = p.entry_count_field;
                        entry_size_field = p.entry_size_field;
                        array_crc = p.array_crc;
                        array_crc_field = p.array_crc_field;
                        array_verified = p.array_verified;
                      }
                ]
          ]
    ]

-- The header that a table is read with is checked as `read_header_at` does it, in the second sector of
-- the device or in the last one, and the last one only where the second one has none.
pub new_table-IsChecked :
    (device : BlockDevice) (header : GptHeader)
    → new_table device ≡ some header
    → IsChecked device 1 header
      ⊎ ((read_header_at device 1 ≡ none) × IsChecked device (device.sector_count - 1) header)
unfolding new_table read_primary_header read_backup_header
new_table-IsChecked device header h =
    elim (or_else-cases (read_primary_header device) (read_backup_header device) h) [
      | inl primary ↦ inl (read_header_at-IsChecked device 1 header primary)
      | inr (none_first, backup) ↦ elim (Bool-cases (ltb device.sector_count 1)) [
        | inl empty ↦ none_some (rw empty at backup)
        | inr more ↦ inr (
          none_first,
          read_header_at-IsChecked device (device.sector_count - 1) header (rw more at backup),
        )
      ]
    ]
