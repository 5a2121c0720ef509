-- ===== src/Gpt/Device.antt =====
-- src/virtio.rs: the block device as its readers see it. What a read returns depends on the sector
-- and the length alone.
use rustfirmware.Base.{ℕ, List, Option, ◌≡◌, some, length}

-- `trait BlockDevice`: the number of sectors, and the bytes that a read puts into a buffer of a
-- given length, or none where it fails.
pub record BlockDevice : Type 0 where
  pub sector_count : ℕ
  pub read_blocks : ℕ → ℕ → Option (List ℕ)

abbrev pub virtio_sector_size : ℕ
virtio_sector_size = 512

-- A read fills the buffer that it gets.
abbrev pub FillsBuffers : BlockDevice → Type 0
FillsBuffers device =
    (sector size : ℕ) (bytes : List ℕ)
    → device.read_blocks sector size ≡ some bytes
    → length bytes ≡ size
