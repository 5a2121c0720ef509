-- ===== src/Gpt/Header/Array.antt =====
-- What `read_entry_array` has checked of a header that it returns.
use rustfirmware.Base.{
  ℕ, ◌+◌, ◌*◌, ◌%◌, ◌≤◌, ◌<◌, ◌≡◌, refl, sym, ap, ◌∙◌, subst, Bool, true, false, not, ◌&&◌, ◌||◌,
  List, Option, none, some, arith, Option-cases, ◌⊎◌, inl, inr, ltb, leb, ◌==◌, ◌!=◌, if◌then◌else◌,
}
use native.Mathlib.Decide.{dec_lt}
use rustfirmware.Base.Maybe.{some_inj, none_some, ◌>>=◌, step_value, guard_passed}
use rustfirmware.Base.Word.{u64_mod, checked_add, checked_mul}
use rustfirmware.Gpt.Bytes.{read_u32, read_u64}
use rustfirmware.Gpt.Device.{BlockDevice}
use rustfirmware.Base.Bytes.{bytes_eq}
use rustfirmware.Gpt.Header.{GptHeader, div_ceil, verify_entry_array_crc, read_entry_array}

-- The entry array of a header: how many bytes it has, and the sector behind it.
abbrev pub array_bytes : GptHeader → ℕ
array_bytes header = header.partition_entry_count * header.partition_entry_size

abbrev pub array_end : GptHeader → ℕ
array_end header = header.partition_entry_lba + div_ceil (array_bytes header) 512

-- The entries have a supported size, and their array is a range of sectors of the device that does
-- not hold the header.
pub record IsSound (device : BlockDevice) (header_lba : ℕ) (header : GptHeader) : Type 0 where
  pub some_entries : 0 < header.partition_entry_count
  pub size_min : 128 ≤ header.partition_entry_size
  pub size_unit : header.partition_entry_size % 128 ≡ 0
  pub starts : 0 < header.partition_entry_lba
  pub bounded : array_bytes header < u64_mod
  pub ends : array_end header ≤ device.sector_count
  pub ends_bounded : array_end header < u64_mod
  pub apart : (header_lba < header.partition_entry_lba) ⊎ (array_end header ≤ header_lba)

checked_mul-some : (a b c : ℕ) → checked_mul a b ≡ some c → (a * b < u64_mod) × (c ≡ a * b)
checked_mul-some a b c h = ground (arith, h)

checked_add-some : (a b c : ℕ) → checked_add a b ≡ some c → (a + b < u64_mod) × (c ≡ a + b)
checked_add-some a b c h = ground (arith, h)

build-IsSound :
    (device : BlockDevice) (header_lba lba count size bytes end : ℕ)
    → (count == 0 || ltb size 128 || size % 128 != 0) ≡ false
    → checked_mul count size ≡ some bytes
    → checked_add lba (div_ceil bytes 512) ≡ some end
    → (lba == 0 || ltb device.sector_count end) ≡ false
    → (leb lba header_lba && ltb header_lba end) ≡ false
    → IsSound device header_lba (record {
      partition_entry_lba = lba;
      partition_entry_count = count;
      partition_entry_size = size;
    })
build-IsSound device header_lba lba count size bytes end entries product sum inside outside =
    let (small, bytes_eq) = checked_mul-some count size bytes product in
    let total : checked_add lba (div_ceil (count * size) 512) ≡ some end =
      ap (λ (n : ℕ). checked_add lba (div_ceil n 512)) (sym bytes_eq) ∙ sum in
    let (short, end_eq) = checked_add-some lba (div_ceil (count * size) 512) end total in
    record {
      some_entries = ground arith;
      size_min = ground arith;
      size_unit = ground arith;
      starts = ground arith;
      bounded = small;
      ends = below end lba (div_ceil (count * size) 512) end_eq inside;
      ends_bounded = short;
      apart = beside lba header_lba end (lba + div_ceil (count * size) 512) end_eq outside;
    }
  where
    below :
        (e l n : ℕ)
        → e ≡ l + n
        → (l == 0 || ltb device.sector_count e) ≡ false
        → l + n ≤ device.sector_count
    below e l n eq h = ground arith

    beside : (l h e f : ℕ) → e ≡ f → (leb l h && ltb h e) ≡ false → (h < l) ⊎ (f ≤ h)
    beside l h e f eq k = elim (dec_lt h l) [
      | yes before ↦ inl before
      | no later ↦ inr (ground arith)
    ]

pub negated_guard : (b : Bool) → not b ≡ false → b ≡ true
negated_guard true h = refl
negated_guard false h = cc

-- The rest of `read_entry_array` after each of its values.
module _ (device : BlockDevice) (header_lba : ℕ) (sector : List ℕ) (lba count size : ℕ) where
  abbrev with_crc : ℕ → ℕ → Option GptHeader
  with_crc bytes crc =
      if not (verify_entry_array_crc device lba bytes crc)
      then none
      else some (record {
        partition_entry_lba = lba;
        partition_entry_count = count;
        partition_entry_size = size;
      })

  abbrev with_end : ℕ → ℕ → Option GptHeader
  with_end bytes end =
      if lba == 0 || ltb device.sector_count end
      then none
      else if leb lba header_lba && ltb header_lba end
      then none
      else read_u32 sector 88 >>= with_crc bytes

  abbrev with_bytes : ℕ → Option GptHeader
  with_bytes bytes = checked_add lba (div_ceil bytes 512) >>= with_end bytes

  abbrev with_fields : Option GptHeader
  with_fields =
      if count == 0 || ltb size 128 || size % 128 != 0
      then none
      else checked_mul count size >>= with_bytes

  -- What is known of the header behind these values.
  record Placed (header : GptHeader) : Type 0 where
    sound : IsSound device header_lba header
    lba_kept : header.partition_entry_lba ≡ lba
    count_kept : header.partition_entry_count ≡ count
    size_kept : header.partition_entry_size ≡ size
    crc : ℕ
    crc_field : read_u32 sector 88 ≡ some crc
    verified : verify_entry_array_crc device lba (count * size) crc ≡ true

  with_fields-Placed : (header : GptHeader) → with_fields ≡ some header → Placed header
  with_fields-Placed header h =
      let (entries, h1) = guard_passed (count == 0 || ltb size 128 || size % 128 != 0) _ h in
      let (bytes, h2, product) = step_value (checked_mul count size) with_bytes h1 in
      let (end, h3, sum) = step_value (checked_add lba (div_ceil bytes 512)) (with_end bytes) h2 in
      let (inside, h4) = guard_passed (lba == 0 || ltb device.sector_count end) _ h3 in
      let (outside, h5) = guard_passed (leb lba header_lba && ltb header_lba end) _ h4 in
      let (crc, h6, crc_here) = step_value (read_u32 sector 88) (with_crc bytes) h5 in
      let (check, h7) = guard_passed (not (verify_entry_array_crc device lba bytes crc)) _ h6 in
      subst Placed (some_inj h7) (record {
        sound =
            build-IsSound device header_lba lba count size bytes end entries product sum inside
              outside;
        lba_kept = refl;
        count_kept = refl;
        size_kept = refl;
        crc = crc;
        crc_field = crc_here;
        verified = negated_guard _ (
            ap (λ (n : ℕ). not (verify_entry_array_crc device lba n crc))
              (sym (checked_mul-some count size bytes product).1)
            ∙ check);
      })

-- What is known of the header that `read_entry_array` returns.
pub record IsArray (device : BlockDevice) (header_lba : ℕ) (sector : List ℕ) (header : GptHeader)
    : Type 0 where
  pub sound : IsSound device header_lba header
  pub entry_lba_field : read_u64 sector 72 ≡ some header.partition_entry_lba
  pub entry_count_field : read_u32 sector 80 ≡ some header.partition_entry_count
  pub entry_size_field : read_u32 sector 84 ≡ some header.partition_entry_size
  pub array_crc : ℕ
  pub array_crc_field : read_u32 sector 88 ≡ some array_crc
  pub array_verified :
      verify_entry_array_crc device header.partition_entry_lba (array_bytes header) array_crc ≡ true

pub read_entry_array-IsArray :
    (device : BlockDevice) (header_lba : ℕ) (sector : List ℕ) (header : GptHeader)
    → read_entry_array device header_lba sector ≡ some header
    → IsArray device header_lba sector header
unfolding read_entry_array
read_entry_array-IsArray device header_lba sector header h =
    elim (Option-cases (read_u64 sector 72)) [
      | inl e ↦ none_some (rw e at h)
      | inr (lba, e) ↦ elim (Option-cases (read_u32 sector 80)) [
        | inl f ↦ none_some (rw (e, f) at h)
        | inr (count, f) ↦ elim (Option-cases (read_u32 sector 84)) [
          | inl g ↦ none_some (rw (e, f, g) at h)
          | inr (size, g) ↦
              let p =
                with_fields-Placed device header_lba sector lba count size header
                  (rw (e, f, g) at h) in
              record {
                sound = p.sound;
                entry_lba_field = rw p.lba_kept e;
                entry_count_field = rw p.count_kept f;
                entry_size_field = rw p.size_kept g;
                array_crc = p.crc;
                array_crc_field = p.crc_field;
                array_verified = rw (p.lba_kept, p.count_kept, p.size_kept) p.verified;
              }
        ]
      ]
    ]
