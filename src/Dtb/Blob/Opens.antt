-- ===== src/Dtb/Blob/Opens.antt =====
-- src/dtb_read.rs: which blobs `from_ptr` accepts, and what it takes of them.
use Prim.Native.Nat.{bit_and}
use rustfirmware.Base.{
  ℕ, zero, suc, ◌+◌, ◌-◌, ◌%◌, ◌^◌, ◌≤◌, ◌<◌, ◌≡◌, ◌≢◌, ◌↔◌, refl, ap, inl, inr, Bool, false, ◌||◌,
  ◌∷◌, length, take, drop, ltb, ◌==◌, ◌!=◌, Outcome, ok, err, arith, Bool-cases, lt→ltb, ==→eq,
}
use rustfirmware.Base.Bits.{bit_and_low}
use rustfirmware.Base.Bytes.{from_be_bytes}
use rustfirmware.Dtb.Blob.{
  FdtError, truncated, unsupported_version, invalid_header, Fdt, memory_bytes, read_be_u32,
  validate_dtb_pointer, section, from_header, from_ptr,
}

-- The big-endian number at an offset.
abbrev pub field : (ℕ → ℕ) → ℕ → ℕ
field memory offset = from_be_bytes (memory_bytes memory offset 4)

-- A header that can be read: the sections lie in the blob, those of the tree behind the header.
pub record IsHeader
    (total_size off_dt_struct off_dt_strings off_mem_rsvmap version size_dt_strings
      size_dt_struct : ℕ)
    : Type 0 where
  pub supported : 17 ≤ version
  pub has_header : 40 ≤ total_size
  pub reserve_map_inside : off_mem_rsvmap ≤ total_size
  pub structure_behind : 40 ≤ off_dt_struct
  pub structure_inside : off_dt_struct + size_dt_struct ≤ total_size
  pub strings_behind : 40 ≤ off_dt_strings
  pub strings_inside : off_dt_strings + size_dt_strings ≤ total_size

pub record IsBlob (ptr_raw : ℕ) (memory : ℕ → ℕ) : Type 0 where
  pub not_null : ptr_raw ≢ 0
  pub aligned : ptr_raw % 8 ≡ 0
  pub magic : field memory 0 ≡ 0xd00dfeed
  pub header :
      IsHeader
        (field memory 4)
        (field memory 8)
        (field memory 12)
        (field memory 16)
        (field memory 20)
        (field memory 32)
        (field memory 36)

-- The sections that the header names.
abbrev pub blob_of : ℕ → (ℕ → ℕ) → Fdt
blob_of ptr_raw memory = record {
  base = ptr_raw;
  total_size = field memory 4;
  reserve_map = memory_bytes memory (field memory 16) (field memory 4 - field memory 16);
  structure = memory_bytes memory (field memory 8) (field memory 36);
  strings = memory_bytes memory (field memory 12) (field memory 32);
}

-- A blob is opened exactly if it is one.
pub data Opens (ptr_raw : ℕ) (memory : ℕ → ℕ) : Outcome FdtError Fdt → Type 0 where
  opened : IsBlob ptr_raw memory → Opens ptr_raw memory (ok (blob_of ptr_raw memory))
  refused : {e : FdtError} → ¬ IsBlob ptr_raw memory → Opens ptr_raw memory (err e)

length-memory_bytes : (memory : ℕ → ℕ) (offset n : ℕ) → length (memory_bytes memory offset n) ≡ n
length-memory_bytes memory offset zero = refl
length-memory_bytes memory offset (suc n) = ap suc (length-memory_bytes memory (suc offset) n)

drop-memory_bytes :
    (memory : ℕ → ℕ) (k n offset : ℕ)
    → k ≤ n
    → drop k (memory_bytes memory offset n) ≡ memory_bytes memory (offset + k) (n - k)
drop-memory_bytes memory zero n offset h =
    let e : offset + 0 ≡ offset = omega arith in let m : n - 0 ≡ n = omega arith in rw (e, m) refl
drop-memory_bytes memory (suc k) zero offset h = absurd (omega arith)
drop-memory_bytes memory (suc k) (suc n) offset h =
    let e : offset + suc k ≡ suc offset + k = omega arith in
    let m : suc n - suc k ≡ n - k = omega arith in
    rw (e, m) (drop-memory_bytes memory k n (suc offset) (omega arith))

take-memory_bytes :
    (memory : ℕ → ℕ) (k n offset : ℕ)
    → k ≤ n
    → take k (memory_bytes memory offset n) ≡ memory_bytes memory offset k
take-memory_bytes memory zero n offset h = refl
take-memory_bytes memory (suc k) zero offset h = absurd (omega arith)
take-memory_bytes memory (suc k) (suc n) offset h =
    ap (◌∷◌ (memory offset)) (take-memory_bytes memory k n (suc offset) (omega arith))

section-memory_bytes :
    (memory : ℕ → ℕ) (total start end : ℕ)
    → start ≤ end
    → end ≤ total
    → section (memory_bytes memory 0 total) start end ≡ ok (memory_bytes memory start (end - start))
unfolding section
section-memory_bytes memory total start end h k =
    let size = length-memory_bytes memory 0 total in
    let test : ltb end start || ltb (length (memory_bytes memory 0 total)) end ≡ false =
      ground (arith, size) in
    let from : 0 + start ≡ start = omega arith in
    rw (test, drop-memory_bytes memory start total 0 (omega arith), from)
      (ap ok (take-memory_bytes memory (end - start) (total - start) start (omega arith)))

field-bound :
    (memory : ℕ → ℕ) (offset : ℕ) → ((o : ℕ) → memory o < 256) → field memory offset < 2 ^ 32
field-bound memory offset bytes = omega (
  arith,
  bytes offset,
  bytes (suc offset),
  bytes (suc (suc offset)),
  bytes (suc (suc (suc offset))),
)

module _ (ptr_raw : ℕ) (memory : ℕ → ℕ) (total a b c version s t : ℕ) where
  sound_header :
      IsHeader total a b c version s t
      → a + t < 2 ^ 64
      → b + s < 2 ^ 64
      → from_header ptr_raw memory total a b c version s t
        ≡ ok (record {
          base = ptr_raw;
          total_size = total;
          reserve_map = memory_bytes memory c (total - c);
          structure = memory_bytes memory a t;
          strings = memory_bytes memory b s;
        })
  unfolding from_header
  sound_header h small small' =
      let v : ltb version 17 ≡ false = ground (arith, h.supported) in
      let n : ltb total 40 ≡ false = ground (arith, h.has_header) in
      let r : ltb total c ≡ false = ground (arith, h.reserve_map_inside) in
      let places : ltb a 40 || ltb total (a + t) || ltb b 40 || ltb total (b + s) ≡ false =
        ground
          (arith, h.structure_behind, h.structure_inside, h.strings_behind, h.strings_inside) in
      let size = length-memory_bytes memory 0 total in
      let first : a + t - a ≡ t = omega arith in
      let second : b + s - b ≡ s = omega arith in
      rw
        (
          v,
          n,
          lt→ltb (a + t) (2 ^ 64) small,
          lt→ltb (b + s) (2 ^ 64) small',
          r,
          places,
          size,
          section-memory_bytes memory total c total h.reserve_map_inside (omega arith),
          section-memory_bytes memory total a (a + t) (omega arith) h.structure_inside,
          section-memory_bytes memory total b (b + s) (omega arith) h.strings_inside,
          first,
          second,
        )
        refl

  -- A header is accepted, or refused with an error.
  data Checked : Type 0 where
    accepted : IsHeader total a b c version s t → Checked
    rejected :
        (e : FdtError)
        → from_header ptr_raw memory total a b c version s t ≡ err e
        → ¬ IsHeader total a b c version s t
        → Checked

  misplaced : Bool
  misplaced = ltb a 40 || ltb total (a + t) || ltb b 40 || ltb total (b + s)

  check_places :
      a + t < 2 ^ 64
      → b + s < 2 ^ 64
      → ltb version 17 ≡ false
      → ltb total 40 ≡ false
      → ltb total c ≡ false
      → Checked
  unfolding from_header misplaced
  check_places small small' v n r = elim (Bool-cases misplaced) [
    | inl bad ↦
        rejected invalid_header
          (rw (v, n, lt→ltb (a + t) (2 ^ 64) small, lt→ltb (b + s) (2 ^ 64) small', r, bad) refl)
          λ h.
            ground (
              arith, bad, h.structure_behind, h.structure_inside, h.strings_behind,
              h.strings_inside,
            )
    | inr good ↦ accepted (record {
      supported = ground (arith, v);
      has_header = ground (arith, n);
      reserve_map_inside = ground (arith, r);
      structure_behind = ground (arith, good);
      structure_inside = ground (arith, good);
      strings_behind = ground (arith, good);
      strings_inside = ground (arith, good);
    })
  ]

  check_header : a + t < 2 ^ 64 → b + s < 2 ^ 64 → Checked
  unfolding from_header
  check_header small small' = elim (Bool-cases (ltb version 17)) [
    | inl old ↦ rejected unsupported_version (rw old refl) λ h. ground (arith, old, h.supported)
    | inr v ↦ elim (Bool-cases (ltb total 40)) [
      | inl short ↦
          rejected invalid_header (rw (v, short) refl) λ h. ground (arith, short, h.has_header)
      | inr n ↦ elim (Bool-cases (ltb total c)) [
        | inl past ↦
            rejected truncated
              (rw (v, n, lt→ltb (a + t) (2 ^ 64) small, lt→ltb (b + s) (2 ^ 64) small', past) refl)
              λ h. ground (arith, past, h.reserve_map_inside)
        | inr r ↦ check_places small small' v n r
      ]
    ]
  ]

module _ (ptr_raw : ℕ) (memory : ℕ → ℕ) where
  aligned_test : (ptr_raw % 8 ≡ 0) ↔ ((bit_and ptr_raw 7 != 0) ≡ false)
  aligned_test =
      let low = bit_and_low 3 ptr_raw in (λ h. ground (arith, low, h), λ h. ground (arith, low, h))

  Opens-header :
      ((o : ℕ) → memory o < 256)
      → ptr_raw ≢ 0
      → ptr_raw % 8 ≡ 0
      → field memory 0 ≡ 0xd00dfeed
      → Opens ptr_raw memory (
          from_header ptr_raw memory
            (field memory 4)
            (field memory 8)
            (field memory 12)
            (field memory 16)
            (field memory 20)
            (field memory 32)
            (field memory 36))
  Opens-header bytes nonnull aligned magic =
      let a = field-bound memory 8 bytes in
      let b = field-bound memory 12 bytes in
      let s = field-bound memory 32 bytes in
      let t = field-bound memory 36 bytes in
      elim (check_header ptr_raw memory (field memory 4) (field memory 8) (field memory 12)
        (field memory 16) (field memory 20) (field memory 32) (field memory 36)
        (omega (arith, a, t)) (omega (arith, b, s))) [
          | accepted h ↦
              rw
                (sound_header ptr_raw memory (field memory 4) (field memory 8) (field memory 12)
                  (field memory 16) (field memory 20) (field memory 32) (field memory 36) h
                  (omega (arith, a, t)) (omega (arith, b, s)))
                (opened
                  (record { not_null = nonnull; aligned = aligned; magic = magic; header = h }))
          | rejected e refuses bad ↦ rw refuses (refused λ h. bad h.header)
        ]

  -- from_ptr accepts a pointer and the bytes behind it exactly if the pointer is not null and aligned, the
  -- magic number and the version are right, and every section lies in the blob, those of the tree behind
  -- the header; it then takes the sections that the header names. Otherwise it returns an error.
  pub from_ptr-Opens : ((o : ℕ) → memory o < 256) → Opens ptr_raw memory (from_ptr ptr_raw memory)
  unfolding from_ptr validate_dtb_pointer read_be_u32
  from_ptr-Opens bytes = elim (Bool-cases (ptr_raw == 0)) [
    | inl null ↦ rw null (refused λ h. h.not_null (==→eq ptr_raw 0 null))
    | inr nonnull ↦ elim (Bool-cases (bit_and ptr_raw 7 != 0)) [
      | inl crooked ↦
          rw (nonnull, crooked) (refused λ h. ground (arith, crooked, aligned_test.0 h.aligned))
      | inr aligned ↦ elim (Bool-cases (field memory 0 != 0xd00dfeed)) [
        | inl other ↦ rw (nonnull, aligned, other) (refused λ h. ground (arith, other, h.magic))
        | inr magic ↦
            rw (nonnull, aligned, magic)
              (Opens-header bytes (λ e. ground (arith, nonnull, e)) (aligned_test.1 aligned)
                (ground (arith, magic)))
      ]
    ]
  ]
