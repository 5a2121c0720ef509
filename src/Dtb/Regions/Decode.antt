-- ===== src/Dtb/Regions/Decode.antt =====
-- src/dtb_memory.rs: what the decoding of a `reg` property gives.
use Prim.Native.Nat.{min}
use native.Mathlib.Nat.{div-add-mod', div-le_self, mod-lt}
use rustfirmware.Base.{
  ℕ, zero, suc, ◌+◌, ◌-◌, ◌*◌, ◌/◌, ◌^◌, ◌≤◌, ◌<◌, ◌≡◌, refl, ap, ◌∙◌, Bool, true, false, List, [],
  ◌∷◌, ◌++◌, length, take, drop, set, length-drop, length-take, length-append, append_assoc, ltb,
  ◌==◌, if◌then◌else◌, ok, ◌%◌, ◌>>=◌, arith, lt→ltb, Bool-cases, inl, inr,
}
use rustfirmware.Base.Bytes.{from_be_bytes, AllBytes, AllBytes-drop, AllBytes-take}
use rustfirmware.Memory.Types.{MemoryRegion}
use rustfirmware.Dtb.Bytes.{Run, read_cells}
use rustfirmware.Dtb.Follows.{bind_ext}
use rustfirmware.Dtb.Cells.{cells_value, read_cells-cells_value}
use rustfirmware.Dtb.Total.Reads.{IsSlice}
use rustfirmware.Dtb.Regions.{
  slice, after_region, regions_loop, visit_decoded_regions, store_region, decode_regions,
}

-- The region whose cells begin at an index of the property.
abbrev pub region_at : List ℕ → ℕ → ℕ → ℕ → MemoryRegion
region_at reg address_cells size_cells index = record {
  base = cells_value (drop index reg) address_cells;
  size = cells_value (drop (index + address_cells * 4) reg) size_cells;
}

-- `n` regions, one behind the other.
abbrev pub regions_at : ℕ → List ℕ → ℕ → ℕ → ℕ → List MemoryRegion
regions_at zero reg address_cells size_cells index = []
regions_at (suc n) reg address_cells size_cells index =
    region_at reg address_cells size_cells index
    ∷ regions_at n reg address_cells size_cells (index + (address_cells + size_cells) * 4)

-- All the regions of the property; without cells there are none, and bytes that make no whole region
-- are left.
abbrev pub regions_of : List ℕ → ℕ → ℕ → List MemoryRegion
regions_of reg address_cells size_cells =
    if (address_cells + size_cells) * 4 == 0
    then []
    else regions_at (length reg / ((address_cells + size_cells) * 4)) reg address_cells size_cells 0

module _ {S : Type 0} (visit : MemoryRegion → S → Run (Bool × S)) where
  -- The callback at each region in turn, until it returns false.
  abbrev pub visit_all : List MemoryRegion → S → Run (Bool × S)
  visit_all [] state = ok (true, state)
  visit_all (region ∷ regions) state =
      visit region state >>= after_region (λ _. visit_all regions) 0

after_region_ext :
    {S : Type 0} (next : ℕ → S → Run (Bool × S)) (other : S → Run (Bool × S)) (index : ℕ)
    → ((state : S) → next index state ≡ other state)
    → (r : Bool × S) → after_region next index r ≡ after_region (λ _. other) 0 r
after_region_ext next other index h (true, state) = h state
after_region_ext next other index h (false, state) = refl

take-take : (n : ℕ) (xs : List ℕ) → take n (take n xs) ≡ take n xs
take-take zero xs = refl
take-take (suc n) [] = refl
take-take (suc n) (x ∷ xs) = ap (◌∷◌ x) (take-take n xs)

-- The cells of a part of the property.
read_part :
    (reg : List ℕ) (start end cells : ℕ)
    → IsSlice reg
    → AllBytes reg
    → end ≡ start + cells * 4
    → end ≤ length reg
    → (slice reg start end ≡ ok (take (cells * 4) (drop start reg)))
      × (read_cells (take (cells * 4) (drop start reg)) cells ≡ cells_value (drop start reg) cells)
unfolding slice
read_part reg start end cells small all e inside =
    let n : end - start ≡ cells * 4 = omega (arith, e) in
    let swap : cells * 4 ≡ 4 * cells = omega arith in
    let size : length (take (4 * cells) (drop start reg)) ≡ 4 * cells =
      omega (arith, e, length-take (4 * cells) (drop start reg), length-drop start reg) in
    (
      rw (← n) (ground arith),
      rw swap (
          read_cells-cells_value (take (4 * cells) (drop start reg)) cells (omega arith)
            (AllBytes-take (4 * cells) (drop start reg) (AllBytes-drop start reg all)) (omega arith)
          ∙ ap (λ (bytes : List ℕ). from_be_bytes bytes % 2 ^ 64)
              (take-take (4 * cells) (drop start reg))),
    )

module _ {S : Type 0} (visit : MemoryRegion → S → Run (Bool × S)) (reg : List ℕ)
    (address_cells size_cells : ℕ) (small : IsSlice reg) (all : AllBytes reg) where
  -- With `n` regions to go, and fewer bytes behind them than a region takes.
  regions_loop-visit_all :
      (fuel n index : ℕ) (state : S)
      → let stride : ℕ = (address_cells + size_cells) * 4 in
        n < fuel
        → index + n * stride ≤ length reg
        → length reg < index + n * stride + stride
        → regions_loop visit fuel reg address_cells size_cells stride index state
          ≡ visit_all visit (regions_at n reg address_cells size_cells index) state
  unfolding regions_loop
  regions_loop-visit_all zero n index state enough inside last = absurd (omega arith)
  regions_loop-visit_all (suc fuel) zero index state enough inside last =
      let stride : ℕ = (address_cells + size_cells) * 4 in
      rw (lt→ltb (length reg) (index + stride) (omega arith)) refl
  regions_loop-visit_all (suc fuel) (suc n) index state enough inside last =
      let stride : ℕ = (address_cells + size_cells) * 4 in
      let more : suc n * stride ≡ n * stride + stride = omega arith in
      let test : ltb (length reg) (index + stride) ≡ false = ground (arith, more) in
      let (first, base) =
        read_part reg index (index + address_cells * 4) address_cells small all refl
          (omega (arith, more)) in
      let (second, extent) =
        read_part reg (index + address_cells * 4) (index + stride) size_cells small all
          (omega arith) (omega (arith, more)) in
      rw (test, first, second, base, extent)
        (bind_ext (visit (region_at reg address_cells size_cells index) state) _ _ (
          after_region_ext (regions_loop visit fuel reg address_cells size_cells stride) _
            (index + stride)
            λ next.
              regions_loop-visit_all fuel n (index + stride) next (omega arith)
                (omega (arith, more)) (omega (arith, more))))

  -- The callback is called at each region of the property in turn.
  pub visit_decoded_regions-visit_all :
      (state : S)
      → visit_decoded_regions visit reg address_cells size_cells state
        ≡ visit_all visit (regions_of reg address_cells size_cells) state
  unfolding visit_decoded_regions
  visit_decoded_regions-visit_all state =
      let stride : ℕ = (address_cells + size_cells) * 4 in
      let division = div-add-mod' (length reg) stride in
      elim (Bool-cases (stride == 0)) [
        | inl none_there ↦ rw none_there refl
        | inr some_there ↦ rw some_there (
            regions_loop-visit_all (length reg + 1) (length reg / stride) 0 state
              (omega (arith, division, div-le_self (length reg) stride)) (omega (arith, division))
              (omega
                (arith, division, mod-lt (length reg) {m = stride} (ground (arith, some_there)))))
      ]

set-at :
    (done rest : List MemoryRegion) (old region : MemoryRegion)
    → set (done ++ old ∷ rest) (length done) region ≡ done ++ region ∷ rest
set-at [] rest old region = refl
set-at (d ∷ done) rest old region = ap (◌∷◌ d) (set-at done rest old region)

pub take-nil : (n : ℕ) → take {A = MemoryRegion} n [] ≡ []
take-nil zero = refl
take-nil (suc n) = refl

-- What is written to the rest of the output, and how many regions that are.
abbrev pub stored : List MemoryRegion → List MemoryRegion → List MemoryRegion
stored regions rest = take (length rest) regions ++ drop (length regions) rest

-- Storing stops where the output is full.
store_all :
    (regions rest done : List MemoryRegion)
    → (go : Bool) × (visit_all store_region regions (length done, done ++ rest)
        ≡ ok (go, (length done + min (length regions) (length rest), done ++ stored regions rest)))
store_all [] rest done =
    let n : length done + min 0 (length rest) ≡ length done = omega arith in
    (true, rw (n, take-nil (length rest)) refl)
store_all (region ∷ regions) [] done =
    let n : length done + min (suc (length regions)) 0 ≡ length done = omega arith in
    let full : (length done == length (done ++ [])) ≡ true =
      ground (arith, length-append done []) in
    (false, rw (n, full) refl)
store_all (region ∷ regions) (old ∷ rest) done =
    let room : (length done == length (done ++ old ∷ rest)) ≡ false =
      ground (arith, length-append done (old ∷ rest)) in
    let inside =
      lt→ltb (length done) (length (done ++ old ∷ rest))
        (omega (arith, length-append done (old ∷ rest))) in
    let (go, runs) = store_all regions rest (done ++ region ∷ []) in
    let one_more : length (done ++ region ∷ []) ≡ length done + 1 =
      omega (arith, length-append done (region ∷ [])) in
    let same : length done + min (suc (length regions)) (suc (length rest))
        ≡ length done + 1 + min (length regions) (length rest) =
      omega arith in
    (
      go,
      rw (room, inside, set-at done rest old region, same)
          (rw
            (
              one_more,
              append_assoc done (region ∷ []) rest,
              append_assoc done (region ∷ []) (stored regions rest),
            )
            at runs),
    )

-- decode_regions writes the regions of the property to the output, in their order, and leaves the rest
-- of it as it was; where the output is too short it is filled.
pub decode_regions-stored :
    (reg : List ℕ) (address_cells size_cells : ℕ) (output : List MemoryRegion)
    → IsSlice reg
    → AllBytes reg
    → let regions = regions_of reg address_cells size_cells in
      decode_regions reg address_cells size_cells output
      ≡ ok (min (length regions) (length output), stored regions output)
unfolding decode_regions
decode_regions-stored reg address_cells size_cells output small all =
    let regions = regions_of reg address_cells size_cells in
    let (go, runs) = store_all regions output [] in
    let e : 0 + min (length regions) (length output) ≡ min (length regions) (length output) =
      omega arith in
    rw
      (
        visit_decoded_regions-visit_all store_region reg address_cells size_cells small all
            (0, output),
        runs,
        e,
      )
      refl
