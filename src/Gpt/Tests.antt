-- ===== src/Gpt/Tests.antt =====
-- A small disk with a GUID partition table, and the theorems at it.
use rustfirmware.Base.{
  ℕ, ◌+◌, ◌-◌, ◌*◌, ◌/◌, ◌%◌, ◌≤◌, ◌<◌, ◌≡◌, refl, ap, ◌∙◌, List, [], ◌∷◌, ◌++◌, none, some, arith,
  length, replicate, ◌==◌, ==→eq, sym, if◌then◌else◌, inl, inr, ◌⊎◌, Bool-cases,
}
use rustfirmware.Base.Maybe.{◌>>=◌, some_inj, none_some}
use rustfirmware.Gpt.Bytes.{copy_16, get, read_u32, read_u64}
use rustfirmware.Gpt.Crc.{crc32}
use rustfirmware.Gpt.Device.{BlockDevice, FillsBuffers}
use rustfirmware.Gpt.Header.{
  GptHeader, read_header_at, verify_entry_array_crc, read_primary_header, new_table, div_ceil,
}
use rustfirmware.Gpt.Header.Array.{IsSound}
use rustfirmware.Gpt.Header.Sound.{IsChecked, read_header_at-IsChecked, new_table-IsChecked}
use rustfirmware.Gpt.Header.Checksum.{has_crc, read_sectors, verify_entry_array_crc-crc32}
use rustfirmware.Gpt.Entry.{GptPartitionEntry, read_partition_entry, decode_entry, sector_count}
use rustfirmware.Gpt.Entry.Sound.{read_partition_entry-one_sector, read_partition_entry-sectors}
use rustfirmware.Gpt.Text.{label, AllAscii, label-AllAscii}

abbrev header_sector : List ℕ
header_sector =
    (0x45 ∷ 0x46 ∷ 0x49 ∷ 0x20 ∷ 0x50 ∷ 0x41 ∷ 0x52 ∷ 0x54 ∷ 0x0 ∷ 0x0 ∷ 0x1 ∷ 0x0 ∷ 0x5c ∷ 0x0
      ∷ 0x0 ∷ 0x0 ∷ 0x88 ∷ 0xd0 ∷ 0x13 ∷ 0x6e ∷ 0x0 ∷ 0x0 ∷ 0x0 ∷ 0x0 ∷ 0x1 ∷ 0x0 ∷ 0x0 ∷ 0x0 ∷ 0x0
      ∷ 0x0 ∷ 0x0 ∷ 0x0 ∷ 0x7 ∷ 0x0 ∷ 0x0 ∷ 0x0 ∷ 0x0 ∷ 0x0 ∷ 0x0 ∷ 0x0 ∷ 0x3 ∷ 0x0 ∷ 0x0 ∷ 0x0
      ∷ 0x0 ∷ 0x0 ∷ 0x0 ∷ 0x0 ∷ 0x6 ∷ 0x0 ∷ 0x0 ∷ 0x0 ∷ 0x0 ∷ 0x0 ∷ 0x0 ∷ 0x0 ∷ 0x10 ∷ 0x11 ∷ 0x12
      ∷ 0x13 ∷ 0x14 ∷ 0x15 ∷ 0x16 ∷ 0x17 ∷ 0x18 ∷ 0x19 ∷ 0x1a ∷ 0x1b ∷ 0x1c ∷ 0x1d ∷ 0x1e ∷ 0x1f
      ∷ 0x2 ∷ 0x0 ∷ 0x0 ∷ 0x0 ∷ 0x0 ∷ 0x0 ∷ 0x0 ∷ 0x0 ∷ 0x1 ∷ 0x0 ∷ 0x0 ∷ 0x0 ∷ 0x80 ∷ 0x0 ∷ 0x0
      ∷ 0x0 ∷ 0x94 ∷ 0xd1 ∷ 0x9b ∷ 0x1f ∷ [])
    ++ replicate 420 0

abbrev entry_sector : List ℕ
entry_sector =
    (0xaf ∷ 0x3d ∷ 0xc6 ∷ 0xf ∷ 0x83 ∷ 0x84 ∷ 0x72 ∷ 0x47 ∷ 0x8e ∷ 0x79 ∷ 0x3d ∷ 0x69 ∷ 0xd8 ∷ 0x47
      ∷ 0x7d ∷ 0xe4 ∷ 0x1 ∷ 0x2 ∷ 0x3 ∷ 0x4 ∷ 0x5 ∷ 0x6 ∷ 0x7 ∷ 0x8 ∷ 0x9 ∷ 0xa ∷ 0xb ∷ 0xc ∷ 0xd
      ∷ 0xe ∷ 0xf ∷ 0x10 ∷ 0x3 ∷ 0x0 ∷ 0x0 ∷ 0x0 ∷ 0x0 ∷ 0x0 ∷ 0x0 ∷ 0x0 ∷ 0x6 ∷ 0x0 ∷ 0x0 ∷ 0x0
      ∷ 0x0 ∷ 0x0 ∷ 0x0 ∷ 0x0 ∷ 0x4 ∷ 0x0 ∷ 0x0 ∷ 0x0 ∷ 0x0 ∷ 0x0 ∷ 0x0 ∷ 0x0 ∷ 0x72 ∷ 0x0 ∷ 0x6f
      ∷ 0x0 ∷ 0x6f ∷ 0x0 ∷ 0x74 ∷ 0x0 ∷ [])
    ++ replicate 448 0

abbrev sector_of : ℕ → List ℕ
sector_of lba =
    if lba == 1 then header_sector else if lba == 2 then entry_sector else replicate 512 0

abbrev disk : BlockDevice
disk = record {
  sector_count = 8;
  read_blocks = λ sector size. if size == 512 then some (sector_of sector) else none;
}

abbrev header : GptHeader
header = record { partition_entry_lba = 2; partition_entry_count = 1; partition_entry_size = 128 }

header_is_read : read_header_at disk 1 ≡ some header
unfolding read_header_at read_u32 crc32 read_u64 verify_entry_array_crc
header_is_read = refl

header-IsSound : IsSound disk 1 header
header-IsSound = (read_header_at-IsChecked disk 1 header header_is_read).sound

read_header_at-IsChecked_example : IsChecked disk 1 header
read_header_at-IsChecked_example = read_header_at-IsChecked disk 1 header header_is_read

table_is_read : new_table disk ≡ some header
unfolding new_table read_primary_header
table_is_read = rw header_is_read refl

new_table-IsChecked_example :
    IsChecked disk 1 header ⊎ ((read_header_at disk 1 ≡ none) × IsChecked disk (8 - 1) header)
new_table-IsChecked_example = new_table-IsChecked disk header table_is_read

sector_of-length : (lba : ℕ) → length (sector_of lba) ≡ 512
sector_of-length lba = elim (Bool-cases (lba == 1)) [
  | inl first ↦ rw first refl
  | inr other ↦ elim (Bool-cases (lba == 2)) [
    | inl second ↦ rw (other, second) refl
    | inr neither ↦ rw (other, neither) refl
  ]
]

disk-FillsBuffers : FillsBuffers disk
disk-FillsBuffers sector size bytes h = elim (Bool-cases (size == 512)) [
  | inl whole ↦
      let same : sector_of sector ≡ bytes = some_inj (rw whole at h) in
      ap length (sym same) ∙ sector_of-length sector ∙ sym (==→eq size 512 whole)
  | inr odd ↦ none_some (rw odd at h)
]

verify_entry_array_crc-crc32_example :
    verify_entry_array_crc disk 2 128 0x1f9b_d194
    ≡ has_crc 128 0x1f9b_d194 (read_sectors disk (div_ceil 128 512) 2)
verify_entry_array_crc-crc32_example =
    verify_entry_array_crc-crc32 disk 2 128 0x1f9b_d194 disk-FillsBuffers (omega arith)

read_partition_entry-one_sector_example :
    (2 + 0 * 128 / 512 < 8)
    × (read_partition_entry disk header 0 ≡ (
        disk.read_blocks (2 + 0 * 128 / 512) 512 >>= λ sector.
        get sector (0 * 128 % 512) 128 >>= λ entry. decode_entry disk entry))
read_partition_entry-one_sector_example =
    read_partition_entry-one_sector disk 1 header header-IsSound 0 (omega arith)

abbrev root_entry : GptPartitionEntry
root_entry = record {
  partition_type_guid =
      0xaf ∷ 0x3d ∷ 0xc6 ∷ 0x0f ∷ 0x83 ∷ 0x84 ∷ 0x72 ∷ 0x47 ∷ 0x8e ∷ 0x79 ∷ 0x3d ∷ 0x69 ∷ 0xd8
      ∷ 0x47 ∷ 0x7d ∷ 0xe4 ∷ [];
  unique_partition_guid = 1 ∷ 2 ∷ 3 ∷ 4 ∷ 5 ∷ 6 ∷ 7 ∷ 8 ∷ 9 ∷ 10 ∷ 11 ∷ 12 ∷ 13 ∷ 14 ∷ 15 ∷ 16 ∷ [];
  first_lba = 3;
  last_lba = 6;
  attributes = 4;
  partition_name = 0x72 ∷ 0x6f ∷ 0x6f ∷ 0x74 ∷ replicate 32 0;
}

entry_is_read : read_partition_entry disk header 0 ≡ some root_entry
unfolding read_partition_entry copy_16 read_u64
entry_is_read = refl

read_partition_entry-sectors_example :
    (3 ≤ 6) × (3 + sector_count root_entry ≡ 6 + 1) × (3 + sector_count root_entry ≤ 8)
read_partition_entry-sectors_example =
    read_partition_entry-sectors disk 1 header 0 root_entry header-IsSound (omega arith)
      (omega arith) entry_is_read

label-AllAscii_example :
    AllAscii (label root_entry) × (0 < length (label root_entry)) × (length (label root_entry) ≤ 72)
label-AllAscii_example = label-AllAscii root_entry
