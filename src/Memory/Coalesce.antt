-- ===== src/Memory/Coalesce.antt =====
-- `coalesce` is one pass over the active descriptors that merges neighbours, and it ends normally.
pub mod Meaning
use rustfirmware.Base.{
  ℕ, zero, suc, ◌+◌, ◌-◌, ◌<◌, ◌≡◌, refl, sym, ap, ◌∙◌, true, false, List, [], ◌∷◌, ◌++◌, some, ok,
  arith, length, length-append, length-take, length-drop, append_assoc, get_elem?, get_elem?-append,
  get_elem?-cons, inl, inr, Bool-cases, ltb,
}
use rustfirmware.Memory.Types.{EfiMemoryDescriptor, PageAllocator}
use rustfirmware.Memory.Arith.{descriptors_are_compatible}
use rustfirmware.Memory.Buffer.{merged, coalesce_loop, coalesce}
use rustfirmware.Memory.Find.{active}
use rustfirmware.Memory.Packed.{packed, Fits, spare, packed_eta, active-packed, merge_at-packed}

-- The pass, with the descriptor that is being extended.
unfoldable pub merge_from :
    EfiMemoryDescriptor → List EfiMemoryDescriptor → List EfiMemoryDescriptor
merge_from d [] = d ∷ []
merge_from d (e ∷ rest) = elim (descriptors_are_compatible d e) [
  | true ↦ merge_from (merged d e) rest
  | false ↦ d ∷ merge_from e rest
]

abbrev pub merge_all : List EfiMemoryDescriptor → List EfiMemoryDescriptor
merge_all [] = []
merge_all (d ∷ rest) = merge_from d rest

module _ (pre rest room : List EfiMemoryDescriptor) (d : EfiMemoryDescriptor) where
  pub read_current : get_elem? ((pre ++ d ∷ rest) ++ room) (length pre) ≡ some d
  read_current = ground (
    arith,
    get_elem?-append (pre ++ d ∷ rest) room (length pre),
    get_elem?-append pre (d ∷ rest) (length pre),
    get_elem?-cons d rest (length pre - length pre),
    length-append pre (d ∷ rest),
  )

  read_next :
      (e : EfiMemoryDescriptor)
      → get_elem? ((pre ++ d ∷ e ∷ rest) ++ room) (length pre + 1) ≡ some e
  read_next e = ground (
    arith,
    get_elem?-append (pre ++ d ∷ e ∷ rest) room (length pre + 1),
    get_elem?-append pre (d ∷ e ∷ rest) (length pre + 1),
    get_elem?-cons d (e ∷ rest) (length pre + 1 - length pre),
    get_elem?-cons e rest (length pre + 1 - length pre - 1),
    length-append pre (d ∷ e ∷ rest),
  )

-- The loop at `d` ends normally with the pass over the rest, and keeps the size of the buffer.
abbrev Merges :
    ℕ
    → List EfiMemoryDescriptor
    → EfiMemoryDescriptor
    → List EfiMemoryDescriptor
    → List EfiMemoryDescriptor
    → Type 0
Merges fuel pre d rest room =
    (room' : List EfiMemoryDescriptor) × (coalesce_loop fuel (length pre)
        (packed (pre ++ d ∷ rest) room)
      ≡ (ok tt, packed (pre ++ merge_from d rest) room'))
    × (length (merge_from d rest) + length room' ≡ suc (length rest) + length room)

merge_from-compatible :
    (d e : EfiMemoryDescriptor) (rest : List EfiMemoryDescriptor)
    → descriptors_are_compatible d e ≡ true
    → merge_from d (e ∷ rest) ≡ merge_from (merged d e) rest
unfolding merge_from
merge_from-compatible d e rest h = rw (h, merge_from)

merge_from-apart :
    (d e : EfiMemoryDescriptor) (rest : List EfiMemoryDescriptor)
    → descriptors_are_compatible d e ≡ false
    → merge_from d (e ∷ rest) ≡ d ∷ merge_from e rest
unfolding merge_from
merge_from-apart d e rest h = rw (h, merge_from)

-- One round of the loop, on each branch.
module _ (fuel : ℕ) (pre rest room : List EfiMemoryDescriptor) (d e : EfiMemoryDescriptor) where
  more : ltb (length pre + 1) (length (pre ++ d ∷ e ∷ rest)) ≡ true
  more = ground (arith, length-append pre (d ∷ e ∷ rest))

  round-compatible :
      descriptors_are_compatible d e ≡ true
      → (freed : EfiMemoryDescriptor) × (coalesce_loop
            (suc fuel)
            (length pre)
            (packed (pre ++ d ∷ e ∷ rest) room)
          ≡ coalesce_loop fuel (length pre) (packed (pre ++ merged d e ∷ rest) (freed ∷ room)))
  unfolding coalesce_loop
  round-compatible h =
      let (freed, merges) = merge_at-packed pre rest d e (merged d e) room in
      (freed, rw (more, read_current pre (e ∷ rest) room d, read_next pre rest room d e, h, merges))

  round-apart :
      descriptors_are_compatible d e ≡ false
      → coalesce_loop (suc fuel) (length pre) (packed (pre ++ d ∷ e ∷ rest) room)
        ≡ coalesce_loop fuel (length (pre ++ d ∷ [])) (packed ((pre ++ d ∷ []) ++ e ∷ rest) room)
  unfolding coalesce_loop
  round-apart h =
      let size : length (pre ++ d ∷ []) ≡ length pre + 1 =
        omega (arith, length-append pre (d ∷ [])) in
      rw (more, read_current pre (e ∷ rest) room d, read_next pre rest room d e, h)
        (rw (size, append_assoc pre (d ∷ []) (e ∷ rest)))

coalesce_loop-Merges :
    (fuel : ℕ) (pre : List EfiMemoryDescriptor) (d : EfiMemoryDescriptor)
    (rest room : List EfiMemoryDescriptor)
    → length rest < fuel
    → Merges fuel pre d rest room
coalesce_loop-Merges zero pre d rest room h = absurd (omega arith)
coalesce_loop-Merges (suc fuel) pre d [] room h =
    unfold coalesce_loop merge_from in
    let last : ltb (length pre + 1) (length (pre ++ d ∷ [])) ≡ false =
      ground (arith, length-append pre (d ∷ [])) in
    (room, rw last, refl)
coalesce_loop-Merges (suc fuel) pre d (e ∷ rest) room h =
    elim (Bool-cases (descriptors_are_compatible d e)) [
      | inl merge ↦
          let (freed, round) = round-compatible fuel pre rest room d e merge in
          let (room', runs, size) =
            coalesce_loop-Merges fuel pre (merged d e) rest (freed ∷ room) (omega arith) in
          let same = merge_from-compatible d e rest merge in
          (room', rw same (round ∙ runs), rw same (omega (arith, size)))
      | inr keep ↦
          let (room', runs, size) =
            coalesce_loop-Merges fuel (pre ++ d ∷ []) e rest room (omega arith) in
          let same = merge_from-apart d e rest keep in
          let grow = append_assoc pre (d ∷ []) (merge_from e rest) in
          (
            room',
            rw same (
                round-apart fuel pre rest room d e keep
                ∙ runs
                ∙ ap (λ (v : List EfiMemoryDescriptor). (ok tt, packed v room')) grow),
            rw same (omega (arith, size)),
          )
    ]

-- The whole pass on a state that is given by its parts.
pub coalesce-packed :
    (v room : List EfiMemoryDescriptor)
    → (room' : List EfiMemoryDescriptor) × (coalesce (packed v room)
        ≡ (ok tt, packed (merge_all v) room'))
      × (length (merge_all v) + length room' ≡ length v + length room)
unfolding coalesce
coalesce-packed [] room = (room, unfold coalesce_loop in refl, refl)
coalesce-packed (d ∷ rest) room =
    coalesce_loop-Merges (suc (length (d ∷ rest))) [] d rest room (omega arith)

-- `coalesce` ends normally on every map that fits its buffer, with the descriptors that the pass
-- gives, and the buffer keeps its length.
pub coalesce-merge_all :
    (a : PageAllocator)
    → Fits a
    → (b : PageAllocator) × (coalesce a ≡ (ok tt, b))
      × (active b ≡ merge_all (active a))
      × (length b.descriptors ≡ length a.descriptors)
      × Fits b
coalesce-merge_all a h =
    let (room, runs, size) = coalesce-packed (active a) (spare a) in
    (
      packed (merge_all (active a)) room,
      ap coalesce (sym (packed_eta a h)) ∙ runs,
      active-packed (merge_all (active a)) room,
      omega (
        arith,
        size,
        length-append (merge_all (active a)) room,
        length-take a.descriptor_count a.descriptors,
        length-drop a.descriptor_count a.descriptors,
      ),
      omega (arith, length-append (merge_all (active a)) room),
    )
