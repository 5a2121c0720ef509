-- ===== src/Gpt/Header.antt =====
-- src/gpt.rs: reading and validating a GPT header.
pub mod Array
pub mod Sound
pub mod Checksum
use rustfirmware.Base.{
  ℕ, zero, suc, ◌+◌, ◌-◌, ◌*◌, ◌/◌, ◌%◌, Bool, true, false, not, ◌&&◌, ◌||◌, List, [], ◌∷◌, ◌++◌,
  Option, none, some, length, take, drop, replicate, min, ltb, leb, ◌==◌, ◌!=◌, if◌then◌else◌,
}
use rustfirmware.Base.Maybe.{◌>>=◌, or_else}
use rustfirmware.Base.Word.{checked_add, checked_sub, checked_mul}
use rustfirmware.Base.Bytes.{bytes_eq}
use rustfirmware.Gpt.Bytes.{read_u32, read_u64}
use rustfirmware.Gpt.Crc.{crc32, crc32_update, crc32_finalize}
use rustfirmware.Gpt.Device.{BlockDevice, virtio_sector_size}

-- GPT_SIGNATURE and the offsets of the fields.
abbrev pub gpt_signature : List ℕ
gpt_signature = 0x45 ∷ 0x46 ∷ 0x49 ∷ 0x20 ∷ 0x50 ∷ 0x41 ∷ 0x52 ∷ 0x54 ∷ []

abbrev pub gpt_header_min_size : ℕ
gpt_header_min_size = 92

abbrev pub gpt_header_crc_offset : ℕ
gpt_header_crc_offset = 16

abbrev pub gpt_header_lba_offset : ℕ
gpt_header_lba_offset = 24

abbrev pub gpt_backup_lba_offset : ℕ
gpt_backup_lba_offset = 32

abbrev pub gpt_first_usable_lba_offset : ℕ
gpt_first_usable_lba_offset = 40

abbrev pub gpt_last_usable_lba_offset : ℕ
gpt_last_usable_lba_offset = 48

abbrev pub gpt_partition_entry_lba_offset : ℕ
gpt_partition_entry_lba_offset = 72

abbrev pub gpt_partition_entry_count_offset : ℕ
gpt_partition_entry_count_offset = 80

abbrev pub gpt_partition_entry_size_offset : ℕ
gpt_partition_entry_size_offset = 84

abbrev pub gpt_partition_entry_array_crc_offset : ℕ
gpt_partition_entry_array_crc_offset = 88

abbrev pub gpt_entry_min_size : ℕ
gpt_entry_min_size = 128

pub record GptHeader : Type 0 where
  pub partition_entry_lba : ℕ
  pub partition_entry_count : ℕ
  pub partition_entry_size : ℕ

-- `a.div_ceil(b)`.
abbrev pub div_ceil : ℕ → ℕ → ℕ
div_ceil a b = if a % b == 0 then a / b else a / b + 1

-- The loop of `verify_entry_array_crc`; without fuel it gives no checksum.
unfoldable pub entry_array_crc : ℕ → BlockDevice → ℕ → ℕ → ℕ → Option ℕ
unfolding crc32_update
entry_array_crc zero device current_lba remaining crc = none
entry_array_crc (suc fuel) device current_lba remaining crc =
    if remaining == 0 then some crc else do
      sector ← device.read_blocks current_lba virtio_sector_size
      let taken = min remaining virtio_sector_size
      next_lba ← checked_add current_lba 1
      entry_array_crc fuel device next_lba (remaining - taken)
          (crc32_update crc (take taken sector))

unfoldable pub matches_crc : Option ℕ → ℕ → Bool
matches_crc none expected_crc = false
matches_crc (some crc) expected_crc = crc32_finalize crc == expected_crc

-- Each round takes at least one byte.
unfoldable pub verify_entry_array_crc : BlockDevice → ℕ → ℕ → ℕ → Bool
unfolding entry_array_crc matches_crc
verify_entry_array_crc device start_lba byte_len expected_crc =
    matches_crc (entry_array_crc (suc byte_len) device start_lba byte_len 0xffff_ffff) expected_crc

-- The header's bytes with its checksum field cleared.
unfoldable pub header_bytes : List ℕ → ℕ → List ℕ
header_bytes sector header_size = take header_size (
    take gpt_header_crc_offset sector ++ (replicate 4 0 ++ drop (gpt_header_crc_offset + 4) sector))

-- The part of `read_header_at` from the entry array on.
unfoldable pub read_entry_array : BlockDevice → ℕ → List ℕ → Option GptHeader
read_entry_array device header_lba sector = do
  partition_entry_lba ← read_u64 sector gpt_partition_entry_lba_offset
  partition_entry_count ← read_u32 sector gpt_partition_entry_count_offset
  entry_size ← read_u32 sector gpt_partition_entry_size_offset
  if partition_entry_count == 0
        || ltb entry_size gpt_entry_min_size
        || entry_size % gpt_entry_min_size != 0
      then none
      else (do
        entry_array_bytes ← checked_mul partition_entry_count entry_size
        entry_array_end_lba ←
            checked_add partition_entry_lba (div_ceil entry_array_bytes virtio_sector_size)
        if partition_entry_lba == 0 || ltb device.sector_count entry_array_end_lba
            then none
            else if leb partition_entry_lba header_lba && ltb header_lba entry_array_end_lba
            then none
            else (do
              entry_array_crc ← read_u32 sector gpt_partition_entry_array_crc_offset
              if not (
                    verify_entry_array_crc device partition_entry_lba entry_array_bytes
                      entry_array_crc)
                  then none
                  else some (record {
                    partition_entry_lba = partition_entry_lba;
                    partition_entry_count = partition_entry_count;
                    partition_entry_size = entry_size;
                  })))

-- The part of `read_header_at` from the header's own address on.
unfoldable pub read_usable_range : BlockDevice → ℕ → List ℕ → Option GptHeader
unfolding read_entry_array
read_usable_range device header_lba sector = do
  current_lba ← read_u64 sector gpt_header_lba_offset
  if current_lba != header_lba then none else (do
    backup_lba ← read_u64 sector gpt_backup_lba_offset
    if leb device.sector_count backup_lba || backup_lba == current_lba then none else (do
      first_usable_lba ← read_u64 sector gpt_first_usable_lba_offset
      last_usable_lba ← read_u64 sector gpt_last_usable_lba_offset
      if ltb last_usable_lba first_usable_lba || leb device.sector_count last_usable_lba
          then none
          else read_entry_array device header_lba sector))

unfoldable pub read_header_at : BlockDevice → ℕ → Option GptHeader
unfolding read_usable_range header_bytes bytes_eq
read_header_at device header_lba = do
  sector ← device.read_blocks header_lba virtio_sector_size
  if not (bytes_eq (take 8 sector) gpt_signature) then none else (do
    header_size ← read_u32 sector 12
    if ltb header_size gpt_header_min_size || ltb virtio_sector_size header_size then none else (do
      header_crc ← read_u32 sector gpt_header_crc_offset
      if crc32 (header_bytes sector header_size) != header_crc
          then none
          else read_usable_range device header_lba sector))

unfoldable pub read_primary_header : BlockDevice → Option GptHeader
unfolding read_header_at
read_primary_header device = read_header_at device 1

unfoldable pub read_backup_header : BlockDevice → Option GptHeader
unfolding read_header_at
read_backup_header device = do
  last_sector ← checked_sub device.sector_count 1
  read_header_at device last_sector

-- `GptPartitionTable::new`: the header that the table is read with.
unfoldable pub new_table : BlockDevice → Option GptHeader
unfolding read_primary_header read_backup_header
new_table device = or_else (read_primary_header device) (read_backup_header device)
