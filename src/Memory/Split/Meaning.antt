-- ===== src/Memory/Split/Meaning.antt =====
-- What a split means for the map: exactly the addresses of the range change their type.
use rustfirmware.Base.{
  ℕ, ◌+◌, ◌*◌, ◌≤◌, ◌<◌, ◌≡◌, Bool, ◌&&◌, List, [], ◌∷◌, ◌++◌, some, arith, ltb, leb, ◌==◌,
  if◌then◌else◌, inl, inr, Bool-cases, Option, append_assoc, ◌%◌,
}
use rustfirmware.Base.Word.{u64_mod}
use rustfirmware.Memory.Types.{EfiMemoryDescriptor, EfiMemoryType, as_uint32}
use rustfirmware.Memory.Alloc.{part}
use rustfirmware.Memory.Map.{IsRange, end_of, type_at, IsMap, IsMap-mono, type_at-below}
use rustfirmware.Memory.Split.{IsWithin, pages_before, pages_after, middle, pieces}

abbrev pub within : ℕ → ℕ → ℕ → Bool
within memory pages x = leb memory x && ltb x (memory + pages * 4096)

-- What a map says at an address after the range got a type.
abbrev pub retyped : ℕ → ℕ → EfiMemoryType → ℕ → Option ℕ → Option ℕ
retyped memory pages type x old = if within memory pages x then some (as_uint32 type) else old

-- A part, empty or not, in front of a map that starts where it ends.
part-IsMap :
    (d : EfiMemoryDescriptor) (start virtual n lo : ℕ) (rest : List EfiMemoryDescriptor)
    → lo ≤ start
    → start % 4096 ≡ 0
    → start + n * 4096 < u64_mod
    → IsMap (start + n * 4096) rest
    → IsMap lo (part d start virtual n ++ rest)
unfolding part
part-IsMap d start virtual n lo rest h aligned bound m = elim (Bool-cases (n == 0)) [
  | inl e ↦ rw (e, part) (IsMap-mono rest (omega arith) m)
  | inr e ↦
      rw (e, part) (h, record { aligned = aligned; nonempty = ground arith; bounded = bound }, m)
]

start_bound :
    (lo : ℕ) (pre post : List EfiMemoryDescriptor) (d : EfiMemoryDescriptor)
    → IsMap lo (pre ++ d ∷ post)
    → lo ≤ d.physical_start
start_bound lo [] post d m = m.0
start_bound lo (p ∷ pre) post d m = omega (arith, m.0, start_bound (end_of p) pre post d m.2)

pub IsMap-IsRange :
    (lo : ℕ) (pre post : List EfiMemoryDescriptor) (d : EfiMemoryDescriptor)
    → IsMap lo (pre ++ d ∷ post)
    → IsRange d
IsMap-IsRange lo [] post d m = m.1
IsMap-IsRange lo (p ∷ pre) post d m = IsMap-IsRange (end_of p) pre post d m.2

module _ (d : EfiMemoryDescriptor) (memory pages : ℕ) (type : EfiMemoryType)
    (w : IsWithin d memory pages) (post : List EfiMemoryDescriptor) where
  pub before_exact : memory ≡ d.physical_start + pages_before d memory pages * 4096
  before_exact = omega (arith, w.range.aligned, w.aligned, w.starts)

  pub after_exact : end_of d ≡ memory + pages * 4096 + pages_after d memory pages * 4096
  after_exact = omega (arith, w.range.aligned, w.aligned, w.ends)

  -- What is left of `d` behind the range, and the range with what is left in front of it.
  pub after-IsMap :
      IsMap (end_of d) post
      → IsMap
          (memory + pages * 4096)
          (part d (memory + pages * 4096) 0 (pages_after d memory pages) ++ post)
  after-IsMap m =
      part-IsMap d (memory + pages * 4096) 0 (pages_after d memory pages) (memory + pages * 4096)
        post (omega arith) (omega (arith, w.aligned)) (omega (arith, after_exact, w.range.bounded))
        (IsMap-mono post (omega (arith, after_exact)) m)

  pub before-IsMap :
      (lo : ℕ) (later : List EfiMemoryDescriptor)
      → lo ≤ d.physical_start
      → IsMap (memory + pages * 4096) later
      → IsMap lo (
          part d d.physical_start d.virtual_start (pages_before d memory pages)
          ++ middle d memory pages type ∷ later)
  before-IsMap lo later h m =
      part-IsMap d d.physical_start d.virtual_start (pages_before d memory pages) lo
        (middle d memory pages type ∷ later) h w.range.aligned
        (omega (arith, before_exact, w.range.bounded, w.ends))
        (
          omega (arith, before_exact),
          record {
            aligned = w.aligned;
            nonempty = w.nonempty;
            bounded = omega (arith, w.range.bounded, w.ends);
          },
          m,
        )

  pieces-IsMap : (lo : ℕ) → IsMap lo (d ∷ post) → IsMap lo (pieces d memory pages type ++ post)
  unfolding pieces
  pieces-IsMap lo m = rw append_assoc (before-IsMap lo _ m.0 (after-IsMap m.2))

  type_at-pieces :
      (x lo : ℕ)
      → IsMap lo (d ∷ post)
      → type_at (pieces d memory pages type ++ post) x
        ≡ retyped memory pages type x (type_at (d ∷ post) x)
  unfolding pieces part
  type_at-pieces x lo m =
      ground (arith, before_exact, after_exact, type_at-below (end_of d) x post m.2)

  -- The same inside of a longer map.
  pub split-IsMap :
      (lo : ℕ) (pre : List EfiMemoryDescriptor)
      → IsMap lo (pre ++ d ∷ post)
      → IsMap lo (pre ++ (pieces d memory pages type ++ post))
  split-IsMap lo [] m = pieces-IsMap lo m
  split-IsMap lo (p ∷ pre) m = (m.0, m.1, split-IsMap (end_of p) pre m.2)

  pub type_at-split :
      (x lo : ℕ) (pre : List EfiMemoryDescriptor)
      → IsMap lo (pre ++ d ∷ post)
      → type_at (pre ++ (pieces d memory pages type ++ post)) x
        ≡ retyped memory pages type x (type_at (pre ++ d ∷ post) x)
  type_at-split x lo [] m = type_at-pieces x lo m
  type_at-split x lo (p ∷ pre) m =
      ground
        (arith, type_at-split x (end_of p) pre m.2, start_bound (end_of p) pre post d m.2, w.starts)

-- Every address of one descriptor of a map has that descriptor's type.
pub type_at-inside :
    (lo x : ℕ) (pre post : List EfiMemoryDescriptor) (d : EfiMemoryDescriptor)
    → IsMap lo (pre ++ d ∷ post)
    → d.physical_start ≤ x
    → x < end_of d
    → type_at (pre ++ d ∷ post) x ≡ some d.type
type_at-inside lo x [] post d m h k = ground arith
type_at-inside lo x (p ∷ pre) post d m h k =
    ground
      (arith, type_at-inside (end_of p) x pre post d m.2, start_bound (end_of p) pre post d m.2)
