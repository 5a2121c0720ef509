-- ===== src/Gpt/Header/Checksum.antt =====
-- `verify_entry_array_crc` checks the checksum of the entry array's bytes.
use rustfirmware.Base.{
  ℕ, zero, suc, ◌+◌, ◌-◌, ◌<◌, ◌≡◌, refl, sym, ap, ◌∙◌, Bool, false, List, [], ◌∷◌, ◌++◌, Option,
  none, some, arith, length, take, min, ◌==◌, Option-cases, Bool-cases, inl, inr,
}
use rustfirmware.Base.Maybe.{◌>>=◌}
use rustfirmware.Base.Word.{u64_mod, checked_add}
use rustfirmware.Gpt.Crc.{crc32, crc32_update, crc32_update-append}
use rustfirmware.Gpt.Device.{BlockDevice, virtio_sector_size, FillsBuffers}
use rustfirmware.Gpt.Header.{div_ceil, entry_array_crc, matches_crc, verify_entry_array_crc}

-- The bytes of `n` sectors from `lba` on, where all of them can be read.
abbrev pub read_sectors : BlockDevice → ℕ → ℕ → Option (List ℕ)
read_sectors device zero lba = some []
read_sectors device (suc n) lba = do
  sector ← device.read_blocks lba virtio_sector_size
  sectors ← read_sectors device n (lba + 1)
  some (sector ++ sectors)

-- The checksum that was begun with `crc`, over the first bytes.
abbrev crc_of : ℕ → ℕ → Option (List ℕ) → Option ℕ
crc_of crc count none = none
crc_of crc count (some bytes) = some (crc32_update crc (take count bytes))

take-nil : (n : ℕ) → take {A = ℕ} n [] ≡ []
take-nil zero = refl
take-nil (suc n) = refl

take-append :
    (n : ℕ) (xs ys : List ℕ)
    → take n (xs ++ ys) ≡ take (min n (length xs)) xs ++ take (n - length xs) ys
take-append n [] ys = let all : n - 0 ≡ n = omega arith in rw (all, take-nil (min n 0)) refl
take-append zero (x ∷ xs) ys =
    let first : min 0 (suc (length xs)) ≡ 0 = omega arith in
    let rest : 0 - suc (length xs) ≡ 0 = omega arith in rw (first, rest) refl
take-append (suc n) (x ∷ xs) ys =
    let first : min (suc n) (suc (length xs)) ≡ suc (min n (length xs)) = omega arith in
    let rest : suc n - suc (length xs) ≡ n - length xs = omega arith in
    rw (first, rest) (ap (◌∷◌ x) (take-append n xs ys))

-- One sector more in front.
join :
    (sector : List ℕ) (crc remaining : ℕ) (o : Option (List ℕ))
    → length sector ≡ 512
    → crc_of (crc32_update crc (take (min remaining 512) sector)) (remaining - min remaining 512) o
      ≡ crc_of crc remaining (o >>= λ sectors. some (sector ++ sectors))
join sector crc remaining none size = refl
join sector crc remaining (some sectors) size =
    let rest : remaining - 512 ≡ remaining - min remaining 512 = omega arith in
    let parts : take remaining (sector ++ sectors)
        ≡ take (min remaining 512) sector ++ take (remaining - min remaining 512) sectors =
      take-append remaining sector sectors ∙ rw (size, rest) refl in
    rw parts (ap some (sym (crc32_update-append crc (take (min remaining 512) sector) _)))

-- Whether the checksum of the first bytes is the expected one, where the bytes are there.
abbrev pub has_crc : ℕ → ℕ → Option (List ℕ) → Bool
has_crc count expected_crc none = false
has_crc count expected_crc (some bytes) = crc32 (take count bytes) == expected_crc

matches :
    (count expected_crc : ℕ) (o : Option (List ℕ))
    → matches_crc (crc_of 0xffff_ffff count o) expected_crc ≡ has_crc count expected_crc o
unfolding matches_crc crc32
matches count expected_crc none = refl
matches count expected_crc (some bytes) = refl

-- The rounds of the loop: the last one, and one that reads a sector.
module _ (device : BlockDevice) (fuel lba crc : ℕ) where
  last_round : entry_array_crc (suc fuel) device lba 0 crc ≡ crc_of crc 0 (some [])
  unfolding entry_array_crc crc32_update
  last_round = refl

  round :
      (remaining : ℕ)
      → (remaining == 0) ≡ false
      → checked_add lba 1 ≡ some (lba + 1)
      → entry_array_crc (suc fuel) device lba remaining crc ≡ (
          device.read_blocks lba 512 >>= λ sector.
          entry_array_crc fuel device
            (lba + 1)
            (remaining - min remaining 512)
            (crc32_update crc (take (min remaining 512) sector)))
  unfolding entry_array_crc
  round remaining more next = rw (more, next) refl

entry_array_crc-crc_of :
    (device : BlockDevice) (fuel lba remaining crc : ℕ)
    → FillsBuffers device
    → remaining < fuel
    → lba + div_ceil remaining 512 < u64_mod
    → entry_array_crc fuel device lba remaining crc
      ≡ crc_of crc remaining (read_sectors device (div_ceil remaining 512) lba)
entry_array_crc-crc_of device zero lba remaining crc fills enough bound = absurd (omega arith)
entry_array_crc-crc_of device (suc fuel) lba remaining crc fills enough bound =
    elim (Bool-cases (remaining == 0)) [
      | inl done ↦
          let empty : remaining ≡ 0 = ground arith in rw empty (last_round device fuel lba crc)
      | inr more ↦
          let next : checked_add lba 1 ≡ some (lba + 1) = ground arith in
          let sectors : div_ceil remaining 512
              ≡ suc (div_ceil (remaining - min remaining 512) 512) =
            ground arith in
          round device fuel lba crc remaining more next
          ∙ elim (Option-cases (device.read_blocks lba 512)) [
            | inl e ↦ rw (sectors, e) refl
            | inr (sector, e) ↦
                rw (sectors, e)
                  (entry_array_crc-crc_of device fuel (lba + 1) (remaining - min remaining 512)
                      (crc32_update crc (take (min remaining 512) sector)) fills (ground arith)
                      (omega (arith, sectors))
                    ∙ join sector crc remaining _ (fills lba 512 sector e))
          ]
    ]

-- For a device that fills its buffers and an array that ends below 2^64, `verify_entry_array_crc`
-- tells whether all its sectors can be read and the checksum of its bytes is the expected one.
pub verify_entry_array_crc-crc32 :
    (device : BlockDevice) (start_lba byte_len expected_crc : ℕ)
    → FillsBuffers device
    → start_lba + div_ceil byte_len 512 < u64_mod
    → verify_entry_array_crc device start_lba byte_len expected_crc
      ≡ has_crc byte_len expected_crc (read_sectors device (div_ceil byte_len 512) start_lba)
unfolding verify_entry_array_crc
verify_entry_array_crc-crc32 device start_lba byte_len expected_crc fills bound =
    rw
      (entry_array_crc-crc_of device (suc byte_len) start_lba byte_len 0xffff_ffff fills
        (omega arith) bound)
      (matches byte_len expected_crc (read_sectors device (div_ceil byte_len 512) start_lba))
