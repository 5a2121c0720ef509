-- ===== src/Memory/Insert.antt =====
-- `insert_sorted` and `add_memory_region`: a new range between the others, in order.
pub mod Ram
use rustfirmware.Base.{
  ℕ, suc, ◌+◌, ◌*◌, ◌%◌, ◌≤◌, ◌<◌, ◌≡◌, refl, sym, ap, ◌∙◌, subst, Bool, true, false, ◌&&◌, List,
  [], ◌∷◌, ◌++◌, Option, none, some, ok, err, arith, length, length-append, append_assoc, ltb, leb,
  if◌then◌else◌, ◌⊎◌, inl, inr, Bool-cases, max,
}
use native.Mathlib.Decide.{dec_le}
use rustfirmware.Base.Word.{u64_mod, wrapping_sub}
use rustfirmware.Memory.Types.{
  EfiMemoryDescriptor, MemoryRegion, PageAllocator, buffer_too_small, address_overflow,
}
use rustfirmware.Memory.Arith.{Result, bytes_to_pages}
use rustfirmware.Memory.Monad.{bind_outcome}
use rustfirmware.Memory.Buffer.{sorted_index, insert_sorted, insert_descriptor}
use rustfirmware.Memory.Find.{active}
use rustfirmware.Memory.Alloc.{on_range}
use rustfirmware.Memory.Build.{ram, add_memory_region}
use rustfirmware.Memory.Packed.{
  packed, spare, packed_eta, active-packed, insert_descriptor-packed, insert_descriptor-full,
}
use rustfirmware.Memory.Coalesce.{read_current}
use rustfirmware.Memory.Map.{end_of, covers, type_at, IsRange, IsMap}
use rustfirmware.Memory.Exact.{IsValid}
use rustfirmware.Memory.Regions.{
  takes, PagesOf, page_range, no_pages, too_high, align_region_to_pages-PagesOf,
}

-- `d` shares no address with the ranges of a map.
abbrev pub Apart : EfiMemoryDescriptor → List EfiMemoryDescriptor → Type 0
Apart d [] = Unit {0}
Apart d (e ∷ ds) = ((end_of e ≤ d.physical_start) ⊎ (end_of d ≤ e.physical_start)) × Apart d ds

pub apart_head :
    (d e : EfiMemoryDescriptor) (ds : List EfiMemoryDescriptor)
    → IsRange d
    → IsRange e
    → ((x : ℕ) → covers d x ≡ true → type_at (e ∷ ds) x ≡ none)
    → (end_of e ≤ d.physical_start) ⊎ (end_of d ≤ e.physical_start)
apart_head d e ds r s free = elim (dec_le (end_of e) d.physical_start) [
  | yes before ↦ inl before
  | no h ↦ elim (dec_le (end_of d) e.physical_start) [
    | yes behind ↦ inr behind
    | no k ↦
        let x : ℕ = max d.physical_start e.physical_start in
        let shared : covers d x ≡ true = ground (arith, r.nonempty, s.nonempty) in
        absurd (ground (arith, free x shared, r.nonempty, s.nonempty))
  ]
]

pub free-Apart :
    (d : EfiMemoryDescriptor) (lo : ℕ) (v : List EfiMemoryDescriptor)
    → IsRange d
    → IsMap lo v
    → ((x : ℕ) → covers d x ≡ true → type_at v x ≡ none)
    → Apart d v
free-Apart d lo [] r m free = tt
free-Apart d lo (e ∷ ds) r m free = (
  apart_head d e ds r m.1 free,
  free-Apart d (end_of e) ds r m.2 (λ x c. ground (arith, free x c)),
)

-- Where the loop of `insert_sorted` stops: `d` fits there, and the map gets its pages.
pub record Placed (d : EfiMemoryDescriptor) (lo : ℕ) (seen todo : List EfiMemoryDescriptor)
    (r : Result ℕ) : Type 0 where
  pub pre : List EfiMemoryDescriptor
  pub post : List EfiMemoryDescriptor
  pub parts : todo ≡ pre ++ post
  pub index : r ≡ ok (length seen + length pre)
  pub map : IsMap lo (pre ++ d ∷ post)
  pub types :
      (x : ℕ) → type_at (pre ++ d ∷ post) x ≡ (if covers d x then some d.type else type_at todo x)

pub at_end :
    (d : EfiMemoryDescriptor) (seen room : List EfiMemoryDescriptor)
    → sorted_index 0 (length seen) d ((seen ++ []) ++ room) ≡ ok (length seen + 0)
unfolding sorted_index
at_end d seen room = ap ok (omega arith)

-- One round of the loop, on each branch.
module _ (d e : EfiMemoryDescriptor) (seen ds room : List EfiMemoryDescriptor) where
  round-here :
      leb e.physical_start d.physical_start ≡ false
      → sorted_index (suc (length ds)) (length seen) d ((seen ++ e ∷ ds) ++ room) ≡ ok (length seen)
  unfolding sorted_index
  round-here here = rw (read_current seen ds room e, here, sorted_index)

  round-later :
      leb e.physical_start d.physical_start ≡ true
      → sorted_index (suc (length ds)) (length seen) d ((seen ++ e ∷ ds) ++ room)
        ≡ sorted_index (length ds) (length (seen ++ e ∷ [])) d (((seen ++ e ∷ []) ++ ds) ++ room)
  unfolding sorted_index
  round-later later =
      let grown : length (seen ++ e ∷ []) ≡ length seen + 1 =
        omega (arith, length-append seen (e ∷ [])) in
      rw (read_current seen ds room e, later, sorted_index)
        (rw (grown, append_assoc seen (e ∷ []) ds))

pub sorted_index-Placed :
    (d : EfiMemoryDescriptor) (lo : ℕ) (seen todo room : List EfiMemoryDescriptor)
    → IsRange d
    → IsMap lo todo
    → lo ≤ d.physical_start
    → Apart d todo
    → Placed d lo seen todo (sorted_index (length todo) (length seen) d ((seen ++ todo) ++ room))
sorted_index-Placed d lo seen [] room r m h apart = record {
  pre = [];
  post = [];
  parts = refl;
  index = at_end d seen room;
  map = (h, r, tt);
  types = λ x. refl;
}
sorted_index-Placed d lo seen (e ∷ ds) room r m h apart =
    elim (Bool-cases (leb e.physical_start d.physical_start)) [
      | inr here ↦ record {
        pre = [];
        post = e ∷ ds;
        parts = refl;
        index = round-here d e seen ds room here ∙ ap ok (omega arith);
        map = (h, r, (ground (arith, apart.0), m.1, m.2));
        types = λ x. refl;
      }
      | inl later ↦
          let grown : length (seen ++ e ∷ []) ≡ length seen + 1 =
            omega (arith, length-append seen (e ∷ [])) in
          let p =
            sorted_index-Placed d (end_of e) (seen ++ e ∷ []) ds room r m.2
              (ground (arith, apart.0, r.nonempty)) apart.1 in
          record {
            pre = e ∷ p.pre;
            post = p.post;
            parts = ap (◌∷◌ e) p.parts;
            index = round-later d e seen ds room later ∙ p.index ∙ ap ok (omega (arith, grown));
            map = (m.0, m.1, p.map);
            types = λ x. ground (arith, p.types x, apart.0, r.nonempty);
          }
    ]
