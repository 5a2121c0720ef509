-- ===== src/Memory/Build/Ram.antt =====
-- Adding the regions of RAM, as `from_regions` does.
use rustfirmware.Base.{
  ℕ, ◌≡◌, refl, sym, ◌∙◌, Bool, true, false, List, [], ◌∷◌, Option, none, some, if◌then◌else◌,
}
use rustfirmware.Memory.Types.{MemoryRegion, PageAllocator}
use rustfirmware.Memory.Arith.{Result}
use rustfirmware.Memory.Find.{active}
use rustfirmware.Memory.Build.{add_memory_region, for_each}
use rustfirmware.Memory.Map.{type_at}
use rustfirmware.Memory.Exact.{IsValid}
use rustfirmware.Memory.Regions.{takes}
use rustfirmware.Memory.Insert.Ram.{
  AddsRam, ram_added, no_place, ram_high, add_memory_region-AddsRam,
}
use rustfirmware.Memory.Build.Maps.{Maps, mapped, failed, Maps-then}

-- The RAM that a list of regions adds, and the pages that a list of regions reserves.
abbrev pub with_ram : List MemoryRegion → ℕ → Option ℕ → Option ℕ
with_ram [] x o = o
with_ram (region ∷ regions) x o = with_ram regions x (if takes false region x then some 7 else o)

abbrev pub DisjointFrom : MemoryRegion → List MemoryRegion → Type 0
DisjointFrom region [] = Unit {0}
DisjointFrom region (other ∷ others) =
    ((x : ℕ) → takes false region x ≡ true → takes false other x ≡ false)
    × DisjointFrom region others

-- No two of the regions have a whole page in common, nor one with the map.
abbrev pub IsDisjoint : List MemoryRegion → Type 0
IsDisjoint [] = Unit {0}
IsDisjoint (region ∷ regions) = DisjointFrom region regions × IsDisjoint regions

abbrev pub IsUnmapped : PageAllocator → MemoryRegion → Type 0
IsUnmapped a region = (x : ℕ) → takes false region x ≡ true → type_at (active a) x ≡ none

abbrev pub NoneMapped : PageAllocator → List MemoryRegion → Type 0
NoneMapped a [] = Unit {0}
NoneMapped a (region ∷ regions) = IsUnmapped a region × NoneMapped a regions

pub ram-Maps :
    (region : MemoryRegion) {IsHigh : Type 0} {a : PageAllocator}
    {r : Result (Unit {0}) × PageAllocator}
    → AddsRam (takes false region) IsHigh a r
    → Maps (λ x o. if takes false region x then some 7 else o) a r
ram-Maps region (ram_added valid capacity types) = mapped valid capacity types
ram-Maps region (no_place full) = failed
ram-Maps region (ram_high high) = failed

pub still_unmapped :
    (region : MemoryRegion) (regions : List MemoryRegion) (a b : PageAllocator)
    → DisjointFrom region regions
    → NoneMapped a regions
    → ((x : ℕ)
        → type_at (active b) x ≡ (if takes false region x then some 7 else type_at (active a) x))
    → NoneMapped b regions
still_unmapped region [] a b apart free types = tt
still_unmapped region (other ∷ others) a b apart free types = (
  λ x t. unmapped (takes false region x) x t (types x) (apart.0 x),
  still_unmapped region others a b apart.1 free.1 types,
)
  where
    unmapped :
        (i : Bool) (x : ℕ)
        → takes false other x ≡ true
        → type_at (active b) x ≡ (if i then some 7 else type_at (active a) x)
        → (i ≡ true → takes false other x ≡ false)
        → type_at (active b) x ≡ none
    unmapped true x t same clash = absurd (elim_clash (sym t ∙ clash refl))
      where
        elim_clash : true ≡ false → ⊥
        elim_clash e = cc
    unmapped false x t same clash = same ∙ free.0 x t

pub add_memory_regions-Maps :
    (regions : List MemoryRegion) (a : PageAllocator)
    → IsValid a
    → IsDisjoint regions
    → NoneMapped a regions
    → Maps (with_ram regions) a (for_each add_memory_region regions a)
unfolding for_each
add_memory_regions-Maps [] a valid apart free = mapped valid refl (λ x. refl)
add_memory_regions-Maps (region ∷ regions) a valid apart free =
    Maps-then (λ x o. if takes false region x then some 7 else o) (with_ram regions) a
      (for_each add_memory_region regions)
      (ram-Maps region (add_memory_region-AddsRam region a valid free.0))
      (λ b valid' types.
        add_memory_regions-Maps regions b valid' apart.1
          (still_unmapped region regions a b apart.0 free.1 types))
