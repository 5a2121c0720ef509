-- ===== src/Memory/Packed.antt =====
-- The allocator as its active descriptors and its spare room: what each buffer method does to
-- them. `packed` is the state that holds the two in one buffer.
use rustfirmware.Base.{
  ℕ, ◌+◌, ◌-◌, ◌≤◌, ◌<◌, ◌≡◌, refl, ap, false, ◌||◌, List, [], ◌∷◌, ◌++◌, ok, err, arith, length,
  drop, ltb, leb, ◌==◌, length-append, length-take, take-append-drop, insert_lem, replace_lem,
  merge_lem,
}
use rustfirmware.Memory.Types.{EfiMemoryDescriptor, MemoryError, PageAllocator, buffer_too_small}
use rustfirmware.Memory.Buffer.{insert_descriptor, replace_descriptor, merge_at}
use rustfirmware.Memory.Find.{active}

abbrev pub packed : List EfiMemoryDescriptor → List EfiMemoryDescriptor → PageAllocator
packed v spare = record { descriptors = v ++ spare; descriptor_count = length v }

-- The count is within the buffer.
abbrev pub Fits : PageAllocator → Type 0
Fits a = a.descriptor_count ≤ length a.descriptors

abbrev pub spare : PageAllocator → List EfiMemoryDescriptor
spare a = drop a.descriptor_count a.descriptors

allocator_ext :
    {xs ys : List EfiMemoryDescriptor} {m n : ℕ}
    → xs ≡ ys
    → m ≡ n
    → ◌≡◌ {A = PageAllocator}
        (record { descriptors = xs; descriptor_count = m })
        (record { descriptors = ys; descriptor_count = n })
allocator_ext p q = λ i. record { descriptors = p i; descriptor_count = q i }

pub packed_eta : (a : PageAllocator) → Fits a → packed (active a) (spare a) ≡ a
packed_eta a h =
    allocator_ext (take-append-drop a.descriptor_count a.descriptors)
      (omega (arith, length-take a.descriptor_count a.descriptors))

pub active-packed : (v room : List EfiMemoryDescriptor) → active (packed v room) ≡ v
active-packed [] room = refl
active-packed (d ∷ v) room = ap (◌∷◌ d) (active-packed v room)

module _ (pre post : List EfiMemoryDescriptor) where
  pub insert_descriptor-packed :
      (d s : EfiMemoryDescriptor) (room : List EfiMemoryDescriptor)
      → insert_descriptor (length pre) d (packed (pre ++ post) (s ∷ room))
        ≡ (ok tt, packed (pre ++ d ∷ post) room)
  unfolding insert_descriptor
  insert_descriptor-packed d s room =
      let (ys, moved, written) = insert_lem {E = MemoryError} pre post room s d in
      let within : (length (pre ++ post) == length ((pre ++ post) ++ s ∷ room)
            || ltb (length (pre ++ post)) (length pre))
          ≡ false =
        ground (arith, length-append (pre ++ post) (s ∷ room), length-append pre post) in
      rw (within, moved, written)
        (ap (λ (a : PageAllocator). (ok tt, a))
          (allocator_ext refl
            (omega (arith, length-append pre post, length-append pre (d ∷ post)))))

  -- Without spare room nothing is written.
  pub insert_descriptor-full :
      (d : EfiMemoryDescriptor)
      → insert_descriptor (length pre) d (packed (pre ++ post) [])
        ≡ (err buffer_too_small, packed (pre ++ post) [])
  unfolding insert_descriptor
  insert_descriptor-full d = ground (arith, length-append (pre ++ post) [])

  module _ (d : EfiMemoryDescriptor) (room p : List EfiMemoryDescriptor)
      (some_entry : 0 < length p) where
    pub replace_descriptor-packed :
        length p - 1 ≤ length room
        → replace_descriptor (length pre) p (packed (pre ++ d ∷ post) room)
          ≡ (ok tt, packed (pre ++ (p ++ post)) (drop (length p - 1) room))
    unfolding replace_descriptor
    replace_descriptor-packed h =
        let (ys, moved, written) = replace_lem {E = MemoryError} pre post room p d some_entry h in
        let total = length-append (pre ++ d ∷ post) room in
        let whole = length-append pre (d ∷ post) in
        let valid : (leb (length (pre ++ d ∷ post)) (length pre) || length p == 0) ≡ false =
          ground (arith, whole) in
        let enough : ltb (length ((pre ++ d ∷ post) ++ room))
              (length (pre ++ d ∷ post) - 1 + length p)
            ≡ false =
          ground (arith, total, whole) in
        rw (valid, enough, moved, written)
          (ap (λ (a : PageAllocator). (ok tt, a))
            (allocator_ext refl
              (omega (arith, whole, length-append pre (p ++ post), length-append p post))))

    pub replace_descriptor-full :
        length room < length p - 1
        → replace_descriptor (length pre) p (packed (pre ++ d ∷ post) room)
          ≡ (err buffer_too_small, packed (pre ++ d ∷ post) room)
    unfolding replace_descriptor
    replace_descriptor-full h =
        ground (arith, length-append (pre ++ d ∷ post) room, length-append pre (d ∷ post))

  pub merge_at-packed :
      (d e m : EfiMemoryDescriptor) (room : List EfiMemoryDescriptor)
      → (freed : EfiMemoryDescriptor) × (merge_at (length pre) m (packed (pre ++ d ∷ e ∷ post) room)
          ≡ (ok tt, packed (pre ++ m ∷ post) (freed ∷ room)))
  unfolding merge_at
  merge_at-packed d e m room =
      let (ys, freed, written, moved) = merge_lem {E = MemoryError} pre post room d e m in
      (
        freed,
        rw (written, moved)
            (ap (λ (a : PageAllocator). (ok tt, a))
              (allocator_ext refl
                (omega (arith, length-append pre (d ∷ e ∷ post), length-append pre (m ∷ post))))),
      )
