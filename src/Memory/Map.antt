-- ===== src/Memory/Map.antt =====
-- The abstract view of a memory map: which type each address has, and what makes a list of
-- descriptors a map. Also the page arithmetic of src/memory.rs, read as arithmetic.
use Prim.Native.Nat.{bit_and}
use native.Mathlib.Nat.{one-le-pow, pow-le-pow_right}
use rustfirmware.Base.{
  ℕ, ◌+◌, ◌-◌, ◌*◌, ◌/◌, ◌%◌, ◌^◌, ◌≤◌, ◌<◌, ◌≡◌, refl, ap, Bool, ◌&&◌, List, [], ◌∷◌, Option, none,
  some, ok, err, arith, ltb, leb, ◌==◌, if◌then◌else◌, Bool-cases, inl, inr, ltb→lt,
}
use rustfirmware.Base.Bits.{bit_and_low, bit_and_high}
use rustfirmware.Base.Word.{u64_mod, wrapping_sub, not_u64}
use rustfirmware.Memory.Types.{EfiMemoryDescriptor, efi_page_size, address_overflow}
use rustfirmware.Memory.Arith.{
  is_page_aligned, align_down, align_up, checked_end, descriptor_end, pages_to_bytes,
}

abbrev pub end_of : EfiMemoryDescriptor → ℕ
end_of d = d.physical_start + d.number_of_pages * 4096

abbrev pub covers : EfiMemoryDescriptor → ℕ → Bool
covers d x = leb d.physical_start x && ltb x (end_of d)

-- The type of the page at an address, or `none` outside of the map.
abbrev pub type_at : List EfiMemoryDescriptor → ℕ → Option ℕ
type_at [] x = none
type_at (d ∷ ds) x = if covers d x then some d.type else type_at ds x

-- Whole pages, at least one, that end below 2^64.
pub record IsRange (d : EfiMemoryDescriptor) : Type 0 where
  pub aligned : d.physical_start % 4096 ≡ 0
  pub nonempty : 0 < d.number_of_pages
  pub bounded : end_of d < u64_mod

-- Ranges in ascending order from `lo` on, none of which overlap.
abbrev pub IsMap : ℕ → List EfiMemoryDescriptor → Type 0
IsMap lo [] = Unit {0}
IsMap lo (d ∷ ds) = (lo ≤ d.physical_start) × IsRange d × IsMap (end_of d) ds

pub IsMap-mono : {lo lo' : ℕ} (v : List EfiMemoryDescriptor) → lo' ≤ lo → IsMap lo v → IsMap lo' v
IsMap-mono [] h m = tt
IsMap-mono (d ∷ ds) h m = (omega arith, m.1, m.2)

-- Below its start a map has no type.
pub type_at-below :
    (lo x : ℕ) (v : List EfiMemoryDescriptor) → IsMap lo v → x < lo → type_at v x ≡ none
type_at-below lo x [] m h = refl
type_at-below lo x (d ∷ ds) m h = ground (arith, type_at-below (end_of d) x ds m.2)

pub checked_end_lem :
    (start pages : ℕ)
    → start + pages * 4096 < u64_mod
    → checked_end start pages ≡ ok (start + pages * 4096)
unfolding checked_end
checked_end_lem start pages h = ground arith

pub descriptor_end_lem : (d : EfiMemoryDescriptor) → IsRange d → descriptor_end d ≡ ok (end_of d)
unfolding descriptor_end
descriptor_end_lem d r = checked_end_lem d.physical_start d.number_of_pages r.bounded

pub is_page_aligned-eq : (x : ℕ) → is_page_aligned x ≡ (x % 4096 == 0)
unfolding is_page_aligned
is_page_aligned-eq x = rw (bit_and_low 12 x)

-- Alignment to a power of two that fits the word.
module _ (k n : ℕ) (fits : k + n ≡ 64) where
  mask : wrapping_sub (2 ^ k) 1 ≡ 2 ^ k - 1
  mask = omega (arith, one-le-pow k 2 (omega arith), bound)
    where
      bound : 2 ^ k ≤ u64_mod
      bound = pow-le-pow_right (omega arith) {i = k} {j = 64} (omega arith)

  masked : (x : ℕ) → x < u64_mod → bit_and x (not_u64 (2 ^ k - 1)) ≡ x / 2 ^ k * 2 ^ k
  masked x h =
      let width : 2 ^ (k + n) ≡ u64_mod = ap (λ (t : ℕ). 2 ^ t) fits in
      rw width at (bit_and_high k n x (rw width h))

  pub align_down-eq : (x : ℕ) → x < u64_mod → align_down x (2 ^ k) ≡ x / 2 ^ k * 2 ^ k
  unfolding align_down
  align_down-eq x h = rw mask (masked x h)

  pub align_up-eq :
      (x : ℕ)
      → align_up x (2 ^ k) ≡ (
          if ltb (x + (2 ^ k - 1)) u64_mod
          then ok ((x + (2 ^ k - 1)) / 2 ^ k * 2 ^ k)
          else err address_overflow)
  unfolding align_up
  align_up-eq x = rw mask (elim (Bool-cases (ltb (x + (2 ^ k - 1)) u64_mod)) [
    | inl fine ↦ rw fine (ap ok (masked (x + (2 ^ k - 1)) (ltb→lt _ _ fine)))
    | inr over ↦ rw over
  ])

pub align_down_page : (x : ℕ) → x < u64_mod → align_down x efi_page_size ≡ x / 4096 * 4096
align_down_page x h = align_down-eq 12 52 refl x h

pub align_up_page :
    (x : ℕ)
    → align_up x efi_page_size
      ≡ (if ltb (x + 4095) u64_mod then ok ((x + 4095) / 4096 * 4096) else err address_overflow)
align_up_page x = align_up-eq 12 52 refl x

pub pages_to_bytes_lem :
    (pages : ℕ)
    → pages_to_bytes pages
      ≡ (if ltb (pages * 4096) u64_mod then ok (pages * 4096) else err address_overflow)
unfolding pages_to_bytes
pages_to_bytes_lem pages = ground arith
