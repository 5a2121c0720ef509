-- ===== src/Memory/Coalesce/Meaning.antt =====
-- What merging means for the map: no address changes its type, and no two neighbours are left that
-- could be merged.
use rustfirmware.Base.{
  ℕ, ◌+◌, ◌-◌, ◌%◌, ◌/◌, ◌≤◌, ◌≡◌, refl, ap, ◌∙◌, true, false, List, [], ◌∷◌, arith, leb, inl, inr,
  Bool-cases, ◌==◌, ◌&&◌,
}
use rustfirmware.Base.Word.{u64_mod}
use rustfirmware.Memory.Types.{EfiMemoryDescriptor}
use rustfirmware.Memory.Arith.{descriptors_are_compatible}
use rustfirmware.Memory.Buffer.{merged}
use rustfirmware.Memory.Map.{end_of, type_at, IsRange, IsMap, IsMap-mono, descriptor_end_lem}
use rustfirmware.Memory.Find.Best.{Any}
use rustfirmware.Memory.Coalesce.{merge_from, merge_all, merge_from-compatible, merge_from-apart}

-- Neighbours that nothing keeps from being merged.
pub compatible_iff :
    (d e : EfiMemoryDescriptor)
    → IsRange d
    → descriptors_are_compatible d e ≡ (
        (d.type == e.type)
        && (d.attribute == e.attribute)
        && (d.virtual_start == e.virtual_start)
        && leb e.physical_start (end_of d))
unfolding descriptors_are_compatible
compatible_iff d e r = rw (descriptor_end_lem d r, descriptors_are_compatible) (ground arith)

-- Two ranges in order that are compatible meet, and the merged one covers both.
module _ (d e : EfiMemoryDescriptor) (r : IsRange d) (s : IsRange e)
    (h : end_of d ≤ e.physical_start) (c : descriptors_are_compatible d e ≡ true) where
  pub meets : (e.physical_start ≡ end_of d) × (d.type ≡ e.type)
  meets = ground (arith, compatible_iff d e r)

  pages :
      (end_of e + u64_mod - d.physical_start) % u64_mod / 4096
      ≡ d.number_of_pages + e.number_of_pages
  pages = omega (arith, meets, s.bounded)

  pub merged_lem : merged d e ≡ record d { number_of_pages = d.number_of_pages + e.number_of_pages }
  unfolding merged
  merged_lem =
      rw (descriptor_end_lem e s, merged) (ap (λ (n : ℕ). record d { number_of_pages = n }) pages)

  merged-IsRange : IsRange (merged d e)
  merged-IsRange = rw merged_lem (record {
    aligned = r.aligned;
    nonempty = omega arith;
    bounded = omega (arith, meets, s.bounded);
  })

-- Merging the first two keeps the map and every address's type.
module _ (lo : ℕ) (d e : EfiMemoryDescriptor) (rest : List EfiMemoryDescriptor)
    (m : IsMap lo (d ∷ e ∷ rest)) (c : descriptors_are_compatible d e ≡ true) where
  joined : (e.physical_start ≡ end_of d) × (d.type ≡ e.type)
  joined = meets d e m.1 m.2.1 m.2.0 c

  merged-IsMap : IsMap lo (merged d e ∷ rest)
  merged-IsMap = rw (merged_lem d e m.1 m.2.1 m.2.0 c) (
    m.0,
    rw (merged_lem d e m.1 m.2.1 m.2.0 c) at (merged-IsRange d e m.1 m.2.1 m.2.0 c),
    IsMap-mono rest (omega (arith, joined)) m.2.2,
  )

  type_at-merged : (x : ℕ) → type_at (merged d e ∷ rest) x ≡ type_at (d ∷ e ∷ rest) x
  type_at-merged x = rw (merged_lem d e m.1 m.2.1 m.2.0 c) (ground (arith, joined))

-- The pass keeps a map a map, from the same address on.
pub merge_from-IsMap :
    (lo : ℕ) (d : EfiMemoryDescriptor) (rest : List EfiMemoryDescriptor)
    → IsMap lo (d ∷ rest)
    → IsMap lo (merge_from d rest)
unfolding merge_from
merge_from-IsMap lo d [] m = m
merge_from-IsMap lo d (e ∷ rest) m = elim (Bool-cases (descriptors_are_compatible d e)) [
  | inl c ↦
      rw (merge_from-compatible d e rest c)
        (merge_from-IsMap lo (merged d e) rest (merged-IsMap lo d e rest m c))
  | inr c ↦ rw (merge_from-apart d e rest c) (m.0, m.1, merge_from-IsMap (end_of d) e rest m.2)
]

-- No address changes its type.
pub type_at-merge_from :
    (lo : ℕ) (d : EfiMemoryDescriptor) (rest : List EfiMemoryDescriptor) (x : ℕ)
    → IsMap lo (d ∷ rest)
    → type_at (merge_from d rest) x ≡ type_at (d ∷ rest) x
unfolding merge_from
type_at-merge_from lo d [] x m = refl
type_at-merge_from lo d (e ∷ rest) x m = elim (Bool-cases (descriptors_are_compatible d e)) [
  | inl c ↦ rw (merge_from-compatible d e rest c) (
      type_at-merge_from lo (merged d e) rest x (merged-IsMap lo d e rest m c)
      ∙ type_at-merged lo d e rest m c x)
  | inr c ↦
      rw (merge_from-apart d e rest c) (ground (arith, type_at-merge_from (end_of d) e rest x m.2))
]

-- Neighbours that could be merged are what the pass leaves none of.
abbrev pub IsMerged : List EfiMemoryDescriptor → Type 0
IsMerged [] = Unit {0}
IsMerged (d ∷ []) = Unit {0}
IsMerged (d ∷ e ∷ rest) = (descriptors_are_compatible d e ≡ false) × IsMerged (e ∷ rest)

-- A merged descriptor is met by the one before it as its first part was.
compatible-merged :
    (g d e : EfiMemoryDescriptor)
    → descriptors_are_compatible g (merged d e) ≡ descriptors_are_compatible g d
unfolding merged descriptors_are_compatible
compatible-merged g d e = refl

cons-IsMerged :
    (g d : EfiMemoryDescriptor) (rest : List EfiMemoryDescriptor)
    → descriptors_are_compatible g d ≡ false
    → IsMerged (g ∷ merge_from d rest)
unfolding merge_from
cons-IsMerged g d [] h = (h, tt)
cons-IsMerged g d (e ∷ rest) h = elim (Bool-cases (descriptors_are_compatible d e)) [
  | inl c ↦
      rw (merge_from-compatible d e rest c)
        (cons-IsMerged g (merged d e) rest (compatible-merged g d e ∙ h))
  | inr c ↦ rw (merge_from-apart d e rest c) (h, cons-IsMerged d e rest c)
]

pub merge_from-IsMerged :
    (d : EfiMemoryDescriptor) (rest : List EfiMemoryDescriptor) → IsMerged (merge_from d rest)
unfolding merge_from
merge_from-IsMerged d [] = tt
merge_from-IsMerged d (e ∷ rest) = elim (Bool-cases (descriptors_are_compatible d e)) [
  | inl c ↦ rw (merge_from-compatible d e rest c) (merge_from-IsMerged (merged d e) rest)
  | inr c ↦ rw (merge_from-apart d e rest c) (cons-IsMerged d e rest c)
]

-- A descriptor that holds a range of addresses.
abbrev pub IsHeldBy : ℕ → ℕ → EfiMemoryDescriptor → Type 0
IsHeldBy start end d = (d.physical_start ≤ start) × (end ≤ end_of d)

-- A range that one descriptor holds is held by one after the pass.
merge_from-held :
    (start end lo : ℕ) (d : EfiMemoryDescriptor) (rest : List EfiMemoryDescriptor)
    → IsMap lo (d ∷ rest)
    → Any (IsHeldBy start end) (d ∷ rest)
    → Any (IsHeldBy start end) (merge_from d rest)
unfolding merge_from
merge_from-held start end lo d [] m h = h
merge_from-held start end lo d (e ∷ rest) m h = elim (Bool-cases (descriptors_are_compatible d e)) [
  | inl c ↦ rw (merge_from-compatible d e rest c) (
      merge_from-held start end lo (merged d e) rest (merged-IsMap lo d e rest m c) (both_held c h))
  | inr c ↦
      rw (merge_from-apart d e rest c)
        (kept_apart (merge_from-held start end (end_of d) e rest m.2) h)
]
  where
    both_held :
        descriptors_are_compatible d e ≡ true
        → Any (IsHeldBy start end) (d ∷ e ∷ rest)
        → Any (IsHeldBy start end) (merged d e ∷ rest)
    both_held c (inl (above, below)) =
        let joins = joined lo d e rest m c in
        rw (merged_lem d e m.1 m.2.1 m.2.0 c) (inl (above, omega (arith, joins)))
    both_held c (inr (inl (above, below))) =
        let joins = joined lo d e rest m c in
        rw (merged_lem d e m.1 m.2.1 m.2.0 c) (inl (omega (arith, joins), omega (arith, joins)))
    both_held c (inr (inr h)) = inr h

    kept_apart :
        (Any (IsHeldBy start end) (e ∷ rest) → Any (IsHeldBy start end) (merge_from e rest))
        → Any (IsHeldBy start end) (d ∷ e ∷ rest)
        → Any (IsHeldBy start end) (d ∷ merge_from e rest)
    kept_apart later (inl h) = inl h
    kept_apart later (inr h) = inr (later h)

-- The four facts, for a whole map.
pub merge_all-held :
    (start end lo : ℕ) (v : List EfiMemoryDescriptor)
    → IsMap lo v
    → Any (IsHeldBy start end) v
    → Any (IsHeldBy start end) (merge_all v)
merge_all-held start end lo [] m h = h
merge_all-held start end lo (d ∷ rest) m h = merge_from-held start end lo d rest m h

pub merge_all-IsMap : (lo : ℕ) (v : List EfiMemoryDescriptor) → IsMap lo v → IsMap lo (merge_all v)
merge_all-IsMap lo [] m = m
merge_all-IsMap lo (d ∷ rest) m = merge_from-IsMap lo d rest m

pub type_at-merge_all :
    (lo x : ℕ) (v : List EfiMemoryDescriptor) → IsMap lo v → type_at (merge_all v) x ≡ type_at v x
type_at-merge_all lo x [] m = refl
type_at-merge_all lo x (d ∷ rest) m = type_at-merge_from lo d rest x m

pub merge_all-IsMerged : (v : List EfiMemoryDescriptor) → IsMerged (merge_all v)
merge_all-IsMerged [] = tt
merge_all-IsMerged (d ∷ rest) = merge_from-IsMerged d rest
