-- ===== src/Gpt/Entry.antt =====
-- src/gpt.rs: reading one partition entry, and src/partition.rs: what an entry tells.
pub mod Sound
use Prim.Native.Nat.{bit_and}
use rustfirmware.Base.{
  ℕ, zero, suc, ◌+◌, ◌-◌, ◌*◌, ◌/◌, ◌%◌, Bool, true, false, not, ◌&&◌, ◌||◌, List, [], ◌∷◌, ◌++◌,
  Option, none, some, length, take, drop, replicate, ltb, leb, ◌==◌, ◌!=◌, if◌then◌else◌,
}
use rustfirmware.Base.Maybe.{◌>>=◌}
use rustfirmware.Base.Word.{checked_add, checked_mul, saturating_add, saturating_sub}
use rustfirmware.Gpt.Bytes.{get, from_le_bytes, read_u64, copy_16}
use rustfirmware.Gpt.Device.{BlockDevice, virtio_sector_size}
use rustfirmware.Gpt.Header.{GptHeader, gpt_entry_min_size, div_ceil}
use rustfirmware.Base.Bytes.{bytes_eq}

abbrev pub gpt_partition_name_len : ℕ
gpt_partition_name_len = 36

abbrev pub gpt_entry_read_buffer_size : ℕ
gpt_entry_read_buffer_size = virtio_sector_size * 2

pub record GptPartitionEntry : Type 0 where
  pub partition_type_guid : List ℕ
  pub unique_partition_guid : List ℕ
  pub first_lba : ℕ
  pub last_lba : ℕ
  pub attributes : ℕ
  pub partition_name : List ℕ

unfoldable pub required_entry_sectors : ℕ → Option ℕ
required_entry_sectors sector_offset = do
  bytes_needed ← checked_add sector_offset gpt_entry_min_size
  some (div_ceil bytes_needed virtio_sector_size)

-- `n` code units of the name, from `offset` on. An index past the entry gives none; the source
-- reads the bytes 56 to 127 of the 128 of an entry.
unfoldable pub partition_name_from : ℕ → List ℕ → ℕ → Option (List ℕ)
unfolding get from_le_bytes
partition_name_from zero entry offset = some []
partition_name_from (suc n) entry offset = do
  code_unit ← get entry offset 2
  code_units ← partition_name_from n entry (offset + 2)
  some (from_le_bytes code_unit ∷ code_units)

-- The decoding of the 128 bytes of an entry.
unfoldable pub decode_entry : BlockDevice → List ℕ → Option GptPartitionEntry
unfolding partition_name_from
decode_entry device entry = do
  partition_name ← partition_name_from gpt_partition_name_len entry 56
  partition_type_guid ← copy_16 entry 0
  unique_partition_guid ← copy_16 entry 16
  first_lba ← read_u64 entry 32
  last_lba ← read_u64 entry 40
  attributes ← read_u64 entry 48
  if ltb last_lba first_lba || leb device.sector_count last_lba
      then none
      else some (record {
        partition_type_guid = partition_type_guid;
        unique_partition_guid = unique_partition_guid;
        first_lba = first_lba;
        last_lba = last_lba;
        attributes = attributes;
        partition_name = partition_name;
      })

unfoldable pub read_partition_entry : BlockDevice → GptHeader → ℕ → Option GptPartitionEntry
unfolding required_entry_sectors decode_entry
read_partition_entry device header index =
    if leb header.partition_entry_count index then none else do
      entry_offset ← checked_mul index header.partition_entry_size
      sector_lba ← checked_add header.partition_entry_lba (entry_offset / virtio_sector_size)
      let sector_offset = entry_offset % virtio_sector_size
      sectors_to_read ← required_entry_sectors sector_offset
      let bytes_to_read = sectors_to_read * virtio_sector_size
      if ltb gpt_entry_read_buffer_size bytes_to_read then none else (do
        sectors ← device.read_blocks sector_lba bytes_to_read
        entry ← get sectors sector_offset gpt_entry_min_size
        decode_entry device entry)

abbrev pub gpt_type_guid_linux_filesystem : List ℕ
gpt_type_guid_linux_filesystem =
    0xaf ∷ 0x3d ∷ 0xc6 ∷ 0x0f ∷ 0x83 ∷ 0x84 ∷ 0x72 ∷ 0x47 ∷ 0x8e ∷ 0x79 ∷ 0x3d ∷ 0x69 ∷ 0xd8 ∷ 0x47
    ∷ 0x7d ∷ 0xe4 ∷ []

abbrev pub gpt_type_guid_esp : List ℕ
gpt_type_guid_esp =
    0x28 ∷ 0x73 ∷ 0x2a ∷ 0xc1 ∷ 0x1f ∷ 0xf8 ∷ 0xd2 ∷ 0x11 ∷ 0xba ∷ 0x4b ∷ 0x00 ∷ 0xa0 ∷ 0xc9 ∷ 0x3e
    ∷ 0xc9 ∷ 0x3b ∷ []

abbrev pub is_unused : GptPartitionEntry → Bool
is_unused entry = bytes_eq entry.partition_type_guid (replicate 16 0)

abbrev pub is_present : GptPartitionEntry → Bool
is_present entry = not (is_unused entry)

unfoldable pub sector_count : GptPartitionEntry → ℕ
sector_count entry = saturating_add (saturating_sub entry.last_lba entry.first_lba) 1

unfoldable pub bootable : GptPartitionEntry → Bool
bootable entry = bit_and entry.attributes 4 != 0

abbrev pub is_efi_system_partition : GptPartitionEntry → Bool
is_efi_system_partition entry = bytes_eq entry.partition_type_guid gpt_type_guid_esp
