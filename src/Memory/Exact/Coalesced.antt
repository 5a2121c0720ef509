-- ===== src/Memory/Exact/Coalesced.antt =====
-- `coalesce` on a valid map, with what it means for the map.
use rustfirmware.Base.{ℕ, ◌≡◌, ok, length}
use rustfirmware.Memory.Types.{PageAllocator}
use rustfirmware.Memory.Buffer.{coalesce}
use rustfirmware.Memory.Find.{active}
use rustfirmware.Memory.Coalesce.{coalesce-merge_all}
use rustfirmware.Memory.Coalesce.Meaning.{
  IsMerged, merge_all-IsMap, type_at-merge_all, merge_all-IsMerged,
}
use rustfirmware.Memory.Map.{type_at}
use rustfirmware.Memory.Exact.{IsValid}

-- `b` is `a` with every address's type kept and no neighbours left to merge.
pub record Coalesced (a b : PageAllocator) : Type 0 where
  pub valid : IsValid b
  pub capacity : length b.descriptors ≡ length a.descriptors
  pub merged : IsMerged (active b)
  pub types : (x : ℕ) → type_at (active b) x ≡ type_at (active a) x

-- On a valid map `coalesce` ends normally; it keeps the map valid, the buffer's length and the type
-- of every address, and leaves no two neighbours that could be merged.
pub coalesce-Coalesced :
    (a : PageAllocator)
    → IsValid a
    → (b : PageAllocator) × (coalesce a ≡ (ok tt, b)) × Coalesced a b
coalesce-Coalesced a valid =
    let (b, runs, same, size, fits) = coalesce-merge_all a valid.fits in
    (
      b,
      runs,
      record {
        valid = record { fits = fits; map = rw same (merge_all-IsMap 0 (active a) valid.map) };
        capacity = size;
        merged = rw same (merge_all-IsMerged (active a));
        types = λ x. rw same (type_at-merge_all 0 x (active a) valid.map);
      },
    )
