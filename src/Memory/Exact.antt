-- ===== src/Memory/Exact.antt =====
-- `find_descriptor_covering`, and `allocate_exact_range` and `free_exact_range` at the descriptor that
-- it finds.
pub mod Calls
pub mod Coalesced
use rustfirmware.Base.{
  ◌≢◌, ℕ, ◌+◌, ◌-◌, ◌*◌, ◌%◌, ◌≤◌, ◌<◌, ◌≡◌, refl, sym, ap, ◌∙◌, subst, Bool, true, false, not,
  ◌&&◌, List, [], ◌∷◌, ◌++◌, Option, some, Outcome, ok, err, arith, length, length-append, drop,
  length-drop, ltb, leb, if◌then◌else◌, ◌⊎◌, inl, inr, ==→eq, Bool-cases, ◌==◌, ◌||◌,
}
use native.Mathlib.Decide.{dec_lt}
use rustfirmware.Base.Word.{u64_mod}
use rustfirmware.Memory.Types.{
  EfiMemoryDescriptor, EfiMemoryType, efi_conventional_memory, as_uint32, MemoryError,
  address_overflow, PageAllocator, not_found, buffer_too_small, out_of_resources, invalid_parameter,
}
use rustfirmware.Memory.Arith.{Result, descriptor_end, checked_end}
use rustfirmware.Memory.Monad.{bind_outcome}
use rustfirmware.Memory.Buffer.{coalesce}
use rustfirmware.Memory.Find.{active, covering_from, find_descriptor_covering}
use rustfirmware.Memory.Alloc.{
  part, replace_range, is_conventional, is_conventional_or_reserved, allocate_exact_range,
  free_exact_range,
}
use rustfirmware.Memory.Packed.{packed, Fits, spare, packed_eta, active-packed}
use rustfirmware.Memory.Coalesce.{merge_all, coalesce-packed, read_current}
use rustfirmware.Memory.Coalesce.Meaning.{
  IsHeldBy, IsMerged, merge_all-held, merge_all-IsMap, type_at-merge_all, merge_all-IsMerged,
}
use rustfirmware.Memory.Find.Best.{Any}
use rustfirmware.Memory.Map.{end_of, type_at, IsRange, IsMap, descriptor_end_lem, checked_end_lem}
use rustfirmware.Memory.Split.{
  IsWithin, pages_before, pieces, pieces-nonempty, pieces-few, next_index, replace_range-packed,
  replace_range-full,
}
use rustfirmware.Memory.Split.Meaning.{
  within, retyped, split-IsMap, type_at-split, type_at-inside, IsMap-IsRange,
}

-- The allocator's invariant: the count is within the buffer, and the active descriptors are
-- disjoint page ranges in ascending order.
pub record IsValid (a : PageAllocator) : Type 0 where
  pub fits : Fits a
  pub map : IsMap 0 (active a)

-- No descriptor holds the whole range.
abbrev pub NoneHolds : ℕ → ℕ → List EfiMemoryDescriptor → Type 0
NoneHolds start end [] = Unit {0}
NoneHolds start end (d ∷ ds) =
    ((leb d.physical_start start && leb end (end_of d)) ≡ false) × NoneHolds start end ds

-- The descriptor that the search stops at.
pub record Holds (start end : ℕ) (v : List EfiMemoryDescriptor) (found : Result ℕ) (index : ℕ)
    : Type 0 where
  pub pre : List EfiMemoryDescriptor
  pub d : EfiMemoryDescriptor
  pub post : List EfiMemoryDescriptor
  pub parts : v ≡ pre ++ d ∷ post
  pub returns : found ≡ ok (index + length pre)
  pub starts : d.physical_start ≤ start
  pub ends : end ≤ end_of d

pub covering_from_cases :
    (index start end lo : ℕ) (v : List EfiMemoryDescriptor)
    → IsMap lo v
    → Holds start end v (covering_from index start end v) index
      ⊎ ((covering_from index start end v ≡ err not_found) × NoneHolds start end v)
unfolding covering_from
covering_from_cases index start end lo [] m = inr (refl, tt)
covering_from_cases index start end lo (d ∷ ds) m =
    elim (Bool-cases (leb d.physical_start start && leb end (end_of d))) [
      | inl here ↦ inl (record {
        pre = [];
        d = d;
        post = ds;
        parts = refl;
        returns = rw (descriptor_end_lem d m.1, here) (ap ok (omega arith));
        starts = ground arith;
        ends = ground arith;
      })
      | inr past ↦ elim (covering_from_cases (index + 1) start end (end_of d) ds m.2) [
        | inl h ↦ inl (record {
          pre = d ∷ h.pre;
          d = h.d;
          post = h.post;
          parts = ap (◌∷◌ d) h.parts;
          returns = rw (descriptor_end_lem d m.1, past) (h.returns ∙ ap ok (omega arith));
          starts = h.starts;
          ends = h.ends;
        })
        | inr (e, none) ↦ inr (rw (descriptor_end_lem d m.1, past) e, (past, none))
      ]
    ]

-- `b` is `a` with a new type on the range, all of whose pages had the type `old`. One descriptor of
-- `b` holds the range.
pub record Retyped (a b : PageAllocator) (memory pages : ℕ) (type : EfiMemoryType) (old : ℕ)
    : Type 0 where
  pub valid : IsValid b
  pub capacity : length b.descriptors ≡ length a.descriptors
  pub merged : IsMerged (active b)
  pub types : (x : ℕ) → type_at (active b) x ≡ retyped memory pages type x (type_at (active a) x)
  pub was : (x : ℕ) → within memory pages x ≡ true → type_at (active a) x ≡ some old
  pub held : Any (IsHeldBy memory (memory + pages * 4096)) (active b)

-- Why a call is refused, and with which error: `denial` is the one for pages of another type.
pub data Refusal (a : PageAllocator) (memory pages : ℕ) (Old : ℕ → Type 0) (denial : MemoryError)
    : MemoryError → Type 0 where
  malformed :
      (pages ≡ 0) ⊎ (memory % 4096 ≢ 0) → Refusal a memory pages Old denial invalid_parameter
  overflows : u64_mod ≤ memory + pages * 4096 → Refusal a memory pages Old denial address_overflow
  uncovered :
      NoneHolds memory (memory + pages * 4096) (active a)
      → Refusal a memory pages Old denial not_found
  other_type :
      (old : ℕ)
      → ¬ Old old
      → type_at (active a) memory ≡ some old
      → Refusal a memory pages Old denial denial
  full :
      length a.descriptors < a.descriptor_count + 2
      → Refusal a memory pages Old denial buffer_too_small

-- A call ends normally after it retyped the range, or with an error for a reason after it changed
-- nothing; it neither panics nor runs on.
pub data Ends (a : PageAllocator) (memory pages : ℕ) (type : EfiMemoryType) (Old : ℕ → Type 0)
    (denial : MemoryError) : Result (Unit {0}) × PageAllocator → Type 0 where
  done :
      {b : PageAllocator} (old : ℕ)
      → Old old
      → Retyped a b memory pages type old
      → Ends a memory pages type Old denial (ok tt, b)
  refused :
      {e : MemoryError}
      → Refusal a memory pages Old denial e
      → Ends a memory pages type Old denial (err e, a)

-- A descriptor among more.
Any-behind :
    (P : EfiMemoryDescriptor → Type 0) (u v : List EfiMemoryDescriptor) → Any P v → Any P (u ++ v)
Any-behind P [] v h = h
Any-behind P (d ∷ u) v h = inr (Any-behind P u v h)

Any-before :
    (P : EfiMemoryDescriptor → Type 0) (u v : List EfiMemoryDescriptor) → Any P u → Any P (u ++ v)
Any-before P [] v h = elim h [ ]
Any-before P (d ∷ u) v (inl h) = inl h
Any-before P (d ∷ u) v (inr h) = inr (Any-before P u v h)

module _ (pre post room : List EfiMemoryDescriptor) (d : EfiMemoryDescriptor) (memory pages : ℕ)
    (type : EfiMemoryType) (w : IsWithin d memory pages) (m : IsMap 0 (pre ++ d ∷ post)) where
  abbrev whole : List EfiMemoryDescriptor
  whole = pre ++ d ∷ post

  abbrev split : List EfiMemoryDescriptor
  split = pre ++ (pieces d memory pages type ++ post)

  split-held : Any (IsHeldBy memory (memory + pages * 4096)) split
  unfolding pieces
  split-held = Any-behind _ pre _ (
      Any-before _ (pieces d memory pages type) post (
        Any-behind _ (part d d.physical_start d.virtual_start (pages_before d memory pages)) _
          (inl (omega arith, omega arith))))

  merged-Retyped :
      (room' : List EfiMemoryDescriptor)
      → length (merge_all split) + length room' ≡ length whole + length room
      → Retyped (packed whole room) (packed (merge_all split) room') memory pages type d.type
  merged-Retyped room' size =
      let map = split-IsMap d memory pages type w post 0 pre m in
      record {
        valid = record {
          fits = omega (arith, length-append (merge_all split) room');
          map = rw active-packed (merge_all-IsMap 0 split map);
        };
        capacity =
            omega (arith, size, length-append (merge_all split) room', length-append whole room);
        merged = rw active-packed (merge_all-IsMerged split);
        types = λ x.
            rw (active-packed (merge_all split) room', active-packed whole room)
              (type_at-merge_all 0 x split map
                ∙ type_at-split d memory pages type w post x 0 pre m);
        was = λ x h.
            rw active-packed
              (type_at-inside 0 x pre post d m (ground (arith, w.starts)) (ground (arith, w.ends)));
        held =
            rw active-packed (merge_all-held memory (memory + pages * 4096) 0 split map split-held);
      }

  few_places :
      length room < length (pieces d memory pages type) - 1
      → length (whole ++ room) < length whole + 2
  few_places few = omega (arith, length-append whole room, pieces-few d memory pages type)

  -- The type at the start of the range.
  pub type_here : type_at (active (packed whole room)) memory ≡ some d.type
  type_here =
      rw active-packed
        (type_at-inside 0 memory pre post d m w.starts (omega (arith, w.nonempty, w.ends)))

  pub replace_range-coalesce :
      (Old : ℕ → Type 0) (denial : MemoryError)
      → Old d.type
      → Ends (packed whole room) memory pages type Old denial (
          bind_outcome
            (replace_range (length pre) memory pages type (packed whole room))
            (λ _. coalesce))
  replace_range-coalesce Old denial o =
      elim (dec_lt (length room) (length (pieces d memory pages type) - 1)) [
        | yes few ↦
            rw (replace_range-full pre post room d memory pages type w few)
              (refused (full (few_places few)))
        | no fits ↦
            let spare' = drop (length (pieces d memory pages type) - 1) room in
            let (room', runs, size) = coalesce-packed split spare' in
            rw (replace_range-packed pre post room d memory pages type w (omega arith), runs)
              (done d.type o (
                merged-Retyped room' (
                  omega (
                    arith,
                    size,
                    length-append pre (pieces d memory pages type ++ post),
                    length-append (pieces d memory pages type) post,
                    length-append pre (d ∷ post),
                    length-drop (length (pieces d memory pages type) - 1) room,
                    pieces-nonempty d memory pages type,
                  ))))
      ]

  -- The two methods, where the search stops at `d`.
  module _
      (found : covering_from 0 memory (memory + pages * 4096) whole ≡ ok (0 + length pre)) where
    pub reached :
        find_descriptor_covering memory (memory + pages * 4096) (packed whole room)
        ≡ ok (length pre)
    unfolding find_descriptor_covering
    reached = rw active-packed (found ∙ ap ok (omega arith))

    pub range_ends : checked_end memory pages ≡ ok (memory + pages * 4096)
    range_ends = checked_end_lem memory pages (omega (arith, w.range.bounded, w.ends))

    pub allocate_at :
        Ends
          (packed whole room)
          memory
          pages
          type
          (λ t. t ≡ as_uint32 efi_conventional_memory)
          out_of_resources
          (allocate_exact_range memory pages type (packed whole room))
    unfolding allocate_exact_range
    allocate_at =
        rw (range_ends, reached, read_current pre post room d)
          (elim (Bool-cases (is_conventional d.type)) [
            | inl free ↦ rw free (replace_range-coalesce _ out_of_resources (==→eq _ _ free))
            | inr used ↦ rw used (refused (other_type d.type (ground arith) type_here))
          ])
