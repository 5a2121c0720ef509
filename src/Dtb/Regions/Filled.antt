-- ===== src/Dtb/Regions/Filled.antt =====
-- src/dtb_memory.rs: an output that regions are written to, one part after another.
use Prim.Native.Nat.{min}
use rustfirmware.Base.{
  ℕ, zero, suc, ◌+◌, ◌≡◌, refl, sym, ap, ◌∙◌, true, false, List, [], ◌∷◌, ◌++◌, append_assoc,
  append-nil, Option, none, some, length, take, drop, length-append, length-take, ltb, ok, arith,
}
use rustfirmware.Memory.Types.{MemoryRegion}
use rustfirmware.Dtb.Total.Reads.{IsValue}
use rustfirmware.Dtb.Regions.{Filled, decode_reg}
use rustfirmware.Dtb.Regions.Decode.{regions_of, stored, take-nil, decode_regions-stored}

abbrev pub reg_regions : ℕ → ℕ → Option (List ℕ) → List MemoryRegion
reg_regions address_cells size_cells none = []
reg_regions address_cells size_cells (some reg) = regions_of reg address_cells size_cells

drop-at : (pre rest : List MemoryRegion) → drop (length pre) (pre ++ rest) ≡ rest
drop-at [] rest = refl
drop-at (x ∷ pre) rest = drop-at pre rest

take-at : (pre rest : List MemoryRegion) → take (length pre) (pre ++ rest) ≡ pre
take-at [] rest = refl
take-at (x ∷ pre) rest = ap (◌∷◌ x) (take-at pre rest)

-- What is filled when so many regions have been stored behind others.
abbrev pub filled_by : List MemoryRegion → List MemoryRegion → List MemoryRegion → Filled
filled_by regions before rest =
    (length before + min (length regions) (length rest), before ++ stored regions rest)

pub filled_by-nil :
    (before rest : List MemoryRegion) → filled_by [] before rest ≡ (length before, before ++ rest)
filled_by-nil before rest =
    let n : length before + min 0 (length rest) ≡ length before = omega arith in
    rw (n, take-nil (length rest)) refl

pub decode_reg-filled :
    (address_cells size_cells : ℕ) (o : Option (List ℕ)) (before rest : List MemoryRegion)
    → elim o as (λ o. Type 0) [ none ↦ Unit {0} | some reg ↦ IsValue reg ]
    → decode_reg address_cells size_cells o (length before, before ++ rest)
      ≡ ok (true, filled_by (reg_regions address_cells size_cells o) before rest)
decode_reg-filled address_cells size_cells none before rest h = rw (filled_by-nil before rest) refl
decode_reg-filled address_cells size_cells (some reg) before rest (small, all) =
    let test : ltb (length (before ++ rest)) (length before) ≡ false =
      ground (arith, length-append before rest) in
    rw
      (
        test,
        drop-at before rest,
        take-at before rest,
        decode_regions-stored reg address_cells size_cells rest small all,
      )
      refl

drop-nil : (n : ℕ) → drop {A = MemoryRegion} n [] ≡ []
drop-nil zero = refl
drop-nil (suc n) = refl

-- Storing where there is no room, and one region more.
pub filled_by-full :
    (xs before : List MemoryRegion) → filled_by xs before [] ≡ (length before, before)
filled_by-full xs before =
    let n : length before + min (length xs) 0 ≡ length before = omega arith in
    rw (n, drop-nil (length xs), append-nil before) refl

filled_by-cons :
    (x r : MemoryRegion) (xs before rest : List MemoryRegion)
    → filled_by (x ∷ xs) before (r ∷ rest) ≡ filled_by xs (before ++ x ∷ []) rest
filled_by-cons x r xs before rest =
    let n : length before + min (suc (length xs)) (suc (length rest))
        ≡ length (before ++ x ∷ []) + min (length xs) (length rest) =
      omega (arith, length-append before (x ∷ [])) in
    rw (n, append_assoc before (x ∷ []) (stored xs rest)) refl

-- Storing in two steps.
pub filled_by-append :
    (xs ys before rest : List MemoryRegion)
    → filled_by (xs ++ ys) before rest
      ≡ filled_by ys (before ++ take (length rest) xs) (drop (length xs) rest)
filled_by-append [] ys before rest = rw (take-nil (length rest), append-nil before) refl
filled_by-append (x ∷ xs) ys before [] =
    filled_by-full (x ∷ (xs ++ ys)) before ∙ rw (append-nil before) (sym (filled_by-full ys before))
filled_by-append (x ∷ xs) ys before (r ∷ rest) =
    filled_by-cons x r (xs ++ ys) before rest
    ∙ filled_by-append xs ys (before ++ x ∷ []) rest
    ∙ rw (append_assoc before (x ∷ []) (take (length rest) xs)) refl

pub filled_by-split :
    (xs before rest : List MemoryRegion)
    → filled_by xs before rest ≡ (
      length (before ++ take (length rest) xs),
      (before ++ take (length rest) xs) ++ drop (length xs) rest,
    )
filled_by-split xs before rest =
    let size : length (before ++ take (length rest) xs)
        ≡ length before + min (length xs) (length rest) =
      omega (arith, length-append before (take (length rest) xs), length-take (length rest) xs) in
    rw (size, append_assoc before (take (length rest) xs) (drop (length xs) rest)) refl
