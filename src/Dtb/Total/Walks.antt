-- ===== src/Dtb/Total/Walks.antt =====
-- src/dtb_read.rs: the loops over the structure block end within their fuel, whatever the blob is.
use rustfirmware.Base.{
  ℕ, zero, suc, ◌+◌, ◌*◌, ◌^◌, ◌≤◌, ◌<◌, ◌≡◌, refl, Bool, true, false, List, Option, none, some,
  length, leb, ◌==◌, ◌!=◌, err, arith,
}
use rustfirmware.Base.Bytes.{bytes_eq, AllBytes}
use rustfirmware.Base.Word.{checked_add, checked_sub}
use rustfirmware.Dtb.Bytes.{absent, Search, Run, wrapping_add, get_range, get_from, align4}
use rustfirmware.Dtb.Blob.{Fdt}
use rustfirmware.Dtb.Structure.{
  fdt_begin_node, fdt_end_node, fdt_prop, fdt_nop, FdtNode, read_token, string_at, end_step,
  end_loop, node_end_offset, node_at_offset, after_visit, visit_child, skip_property, child_step,
  child_loop, children_from, for_each_child,
}
use rustfirmware.Dtb.Query.{property_step, property_loop, get_property}
use rustfirmware.Dtb.Total.{
  Finds, gives, misses, Returns, returns, Finds-then, Finds-option, Finds-or, Finds-if,
  Returns-then, Returns-if, Holds, Returns-attempt,
}
use rustfirmware.Dtb.Total.Reads.{
  IsSlice, IsValue, get_range-IsValue, c_string-Finds, read_be_u32-bound, align4_lem,
  read_token-within, read_c_string-Finds, after_begin_node-Finds, after_property-Finds,
}

module _ (fdt : Fdt) (small : IsSlice fdt.structure) where
  -- The fuel that is enough from an offset on: each round takes four bytes at least.
  abbrev Enough : ℕ → ℕ → Type 0
  Enough fuel offset = (0 < fuel) × (length fdt.structure + 4 ≤ 4 * fuel + offset)

  -- The end token of a node lies behind its start, in the block.
  abbrev IsEnd : ℕ → ℕ → Type 0
  IsEnd offset end = (offset ≤ end) × (end + 4 ≤ length fdt.structure)

  IsEnd-later :
      {offset later : ℕ} {s : Search ℕ}
      → offset ≤ later
      → Finds (IsEnd later) s
      → Finds (IsEnd offset) s
  IsEnd-later h (gives (above, below)) = gives (omega arith, below)
  IsEnd-later h misses = misses

  Enough-later :
      (fuel offset later : ℕ)
      → Enough (suc fuel) offset
      → offset + 4 ≤ length fdt.structure
      → offset + 4 ≤ later
      → Enough fuel later
  Enough-later fuel offset later (positive, enough) inside further = (omega arith, omega arith)

  end_step-Finds :
      (fuel offset depth token : ℕ)
      → ((later deeper : ℕ)
          → Enough fuel later
          → Finds (IsEnd later) (end_loop fuel fdt later deeper))
      → Enough (suc fuel) offset
      → offset + 4 ≤ length fdt.structure
      → Finds (IsEnd offset) (end_step (end_loop fuel fdt) fdt offset depth token)
  unfolding end_step
  end_step-Finds fuel offset depth token next enough inside =
      Finds-if (token == fdt_begin_node) _ _
        (Finds-option (checked_add depth 1) _ λ deeper _.
          Finds-then _ (after_begin_node-Finds fdt small offset)
            λ after ends. further after deeper ends.0)
        (Finds-if (token == fdt_end_node) _ _
          (Finds-option (checked_sub depth 1) _ λ outer _.
            Finds-if (outer == 0) _ _ (gives (omega arith, inside)) (
              Finds-option (checked_add offset 4) _
                λ after sum. further after outer (ground (arith, sum))))
          (Finds-if (token == fdt_prop) _ _
            (Finds-then _ (after_property-Finds fdt small offset inside)
              λ after ends. further after depth ends.0)
            (Finds-if (token == fdt_nop) _ _
              (Finds-option (checked_add offset 4) _
                λ after sum. further after depth (ground (arith, sum)))
              misses)))
    where
      further :
          (after deeper : ℕ)
          → offset + 4 ≤ after
          → Finds (IsEnd offset) (end_loop fuel fdt after deeper)
      further after deeper h =
          IsEnd-later (omega arith)
            (next after deeper (Enough-later fuel offset after enough inside h))

  end_loop-Finds :
      (fuel offset depth : ℕ)
      → Enough fuel offset
      → Finds (IsEnd offset) (end_loop fuel fdt offset depth)
  unfolding end_loop
  end_loop-Finds zero offset depth enough = absurd (omega arith)
  end_loop-Finds (suc fuel) offset depth enough =
      Finds-option (read_token fdt offset) _ λ token here.
        end_step-Finds fuel offset depth token (end_loop-Finds fuel) enough
          (read_token-within fdt small offset token here)

  node_end_offset-Finds : (offset : ℕ) → Finds (IsEnd offset) (node_end_offset fdt offset)
  unfolding node_end_offset
  node_end_offset-Finds offset =
      end_loop-Finds (length fdt.structure + 1) offset 0 (omega arith, omega arith)

  -- A node that was found: it begins at the offset and ends behind it, in the block.
  abbrev pub IsNode : ℕ → FdtNode → Type 0
  IsNode offset node = (node.begin_offset ≡ offset) × IsEnd offset node.end_offset

  pub node_at_offset-Finds : (offset : ℕ) → Finds (IsNode offset) (node_at_offset fdt offset)
  unfolding node_at_offset
  node_at_offset-Finds offset = Finds-option (read_token fdt offset) _ λ token _.
      Finds-if (token != fdt_begin_node) (err absent) _ misses (
        Finds-option (checked_add offset 4) _ λ name_offset _.
          Finds-then _ (read_c_string-Finds fdt small name_offset) λ r _.
            Finds-then _ (node_end_offset-Finds offset) λ end_offset ends. gives (refl, ends))

  -- A callback that keeps an invariant of its state, at each node that it is called with.
  module _ {S : Type 0} (Q : S → Type 0) (visit : FdtNode → S → Run (Bool × S))
      (keeps : (child : FdtNode) (state : S)
        → Q state
        → Returns (λ r. Q r.1) (visit child state)) where
    after_visit-Returns :
        (fuel end_offset offset : ℕ) (o : Option ℕ) (r : Bool × S)
        → ((later : ℕ) (state : S)
            → Enough fuel later
            → Q state
            → Returns Q (child_loop fdt visit fuel end_offset later state))
        → ((later : ℕ) → o ≡ some later → Enough fuel later)
        → Q r.1
        → Returns Q (after_visit fdt visit (child_loop fdt visit fuel end_offset) o r)
    unfolding after_visit
    after_visit-Returns fuel end_offset offset o (false, state) next enough q = returns q
    after_visit-Returns fuel end_offset offset none (true, state) next enough q = returns q
    after_visit-Returns fuel end_offset offset (some later) (true, state) next enough q =
        next later state (enough later refl) q

    -- The rest of the loop, from any later offset.
    abbrev Rest : ℕ → ℕ → Type 0
    Rest fuel end_offset =
        (later : ℕ) (state : S)
        → Enough fuel later
        → Q state
        → Returns Q (child_loop fdt visit fuel end_offset later state)

    visit_child-Returns :
        (fuel end_offset offset : ℕ) (state : S) (o : Option FdtNode)
        → Rest fuel end_offset
        → Enough (suc fuel) offset
        → offset + 4 ≤ length fdt.structure
        → Holds (IsNode offset) o
        → Q state
        → Returns Q (visit_child fdt visit (child_loop fdt visit fuel end_offset) state o)
    unfolding visit_child
    visit_child-Returns fuel end_offset offset state none next enough inside node q = returns q
    visit_child-Returns fuel end_offset offset state (some child) next enough inside
          (begins, (above, below)) q =
        Returns-then _ (keeps child state q) λ r kept.
          after_visit-Returns fuel end_offset offset (checked_add child.end_offset 4) r next
            (λ later sum. Enough-later fuel offset later enough inside (ground (arith, sum))) kept

    skip_property-Returns :
        (fuel end_offset offset : ℕ) (state : S) (o : Option ℕ)
        → Rest fuel end_offset
        → Enough (suc fuel) offset
        → offset + 4 ≤ length fdt.structure
        → Holds (λ after. (offset + 4 ≤ after) × (after ≤ length fdt.structure + 3)) o
        → Q state
        → Returns Q (skip_property fdt visit (child_loop fdt visit fuel end_offset) state o)
    unfolding skip_property
    skip_property-Returns fuel end_offset offset state none next enough inside h q = returns q
    skip_property-Returns fuel end_offset offset state (some after) next enough inside (further, _)
          q =
        next after state (Enough-later fuel offset after enough inside further) q

    child_step-Returns :
        (fuel end_offset offset : ℕ) (state : S) (o : Option ℕ)
        → Rest fuel end_offset
        → Enough (suc fuel) offset
        → read_token fdt offset ≡ o
        → Q state
        → Returns Q (child_step fdt visit (child_loop fdt visit fuel end_offset) offset state o)
    unfolding child_step
    child_step-Returns fuel end_offset offset state none next enough here q = returns q
    child_step-Returns fuel end_offset offset state (some token) next enough here q =
        let inside = read_token-within fdt small offset token here in
        Returns-if (token == fdt_prop) _ _
          (Returns-then _ (Returns-attempt (after_property-Finds fdt small offset inside))
            λ o h. skip_property-Returns fuel end_offset offset state o next enough inside h q)
          (Returns-if (token == fdt_nop) _ _
            (next (wrapping_add offset 4) state
              (Enough-later fuel offset (wrapping_add offset 4) enough inside (omega arith)) q)
            (Returns-if (token == fdt_begin_node) _ _
              (Returns-then _ (Returns-attempt (node_at_offset-Finds offset))
                λ o h. visit_child-Returns fuel end_offset offset state o next enough inside h q)
              (returns q)))

    child_loop-Returns : (fuel end_offset : ℕ) → Rest fuel end_offset
    unfolding child_loop
    child_loop-Returns zero end_offset offset state enough q = absurd (omega arith)
    child_loop-Returns (suc fuel) end_offset offset state enough q =
        Returns-if (leb end_offset offset) _ _ (returns q) (
          child_step-Returns fuel end_offset offset state (read_token fdt offset)
            (child_loop-Returns fuel end_offset) enough refl q)

    children_from-Returns :
        (end_offset : ℕ) (state : S) (o : Option ℕ)
        → Q state
        → Returns Q (children_from fdt visit end_offset state o)
    children_from-Returns end_offset state none q = returns q
    children_from-Returns end_offset state (some offset) q =
        child_loop-Returns (length fdt.structure + 1) end_offset offset state
          (omega arith, omega arith) q

    -- The walk over the children ends, and keeps what the callback keeps.
    pub for_each_child-Returns :
        (parent : FdtNode) (state : S) → Q state → Returns Q (for_each_child fdt visit parent state)
    unfolding for_each_child
    for_each_child-Returns parent state q =
        Returns-then _ (Returns-attempt (after_begin_node-Finds fdt small parent.begin_offset))
          λ o _. children_from-Returns parent.end_offset state o q

  string_at-Finds : (offset : ℕ) → Finds (λ name. Unit {0}) (string_at fdt offset)
  unfolding string_at
  string_at-Finds offset =
      Finds-option (get_from fdt.strings offset) _
        λ bytes _. Finds-then _ (c_string-Finds fdt small bytes) λ r _. gives tt

module _ (fdt : Fdt) (small : IsSlice fdt.structure) (bytes : AllBytes fdt.structure) where
  aligned_after :
      (offset value_length value_end : ℕ)
      → offset + 4 ≤ length fdt.structure
      → value_length < 2 ^ 32
      → checked_add (wrapping_add offset 12) value_length ≡ some value_end
      → offset + 4 ≤ align4 value_end
  aligned_after offset value_length value_end inside bound sum =
      let end : value_end ≡ offset + 12 + value_length = ground (arith, sum) in
      omega (arith, end, align4_lem value_end (omega arith))

  property_step-Finds :
      (fuel end_offset offset token : ℕ) (name : List ℕ)
      → ((later : ℕ)
          → Enough fdt small fuel later
          → Finds IsValue (property_loop fuel fdt name end_offset later))
      → Enough fdt small (suc fuel) offset
      → offset + 4 ≤ length fdt.structure
      → Finds IsValue (property_step (property_loop fuel fdt name end_offset) fdt name offset token)
  unfolding property_step read_token
  property_step-Finds fuel end_offset offset token name next enough inside =
      Finds-if (token == fdt_prop) _ _
        (Finds-option (read_token fdt (wrapping_add offset 4)) _ λ value_length here.
          Finds-option (read_token fdt (wrapping_add offset 8)) _ λ name_offset _.
            Finds-option (checked_add (wrapping_add offset 12) value_length) _ λ value_end sum.
              Finds-then _ (string_at-Finds fdt small name_offset) λ found _.
                Finds-if (bytes_eq found name) _ _
                  (Finds-or (get_range fdt.structure (wrapping_add offset 12) value_end)
                    λ value range.
                      get_range-IsValue fdt.structure (wrapping_add offset 12) value_end value small
                        bytes range)
                  (next (align4 value_end) (
                    Enough-later fdt small fuel offset (align4 value_end) enough inside (
                      aligned_after offset value_length value_end inside
                        (read_be_u32-bound fdt.structure (wrapping_add offset 4) value_length small
                          bytes here)
                        sum))))
        (Finds-if (token == fdt_nop) _ _
          (next (wrapping_add offset 4) (
            Enough-later fdt small fuel offset (wrapping_add offset 4) enough inside (omega arith)))
          misses)

  property_loop-Finds :
      (fuel end_offset offset : ℕ) (name : List ℕ)
      → Enough fdt small fuel offset
      → Finds IsValue (property_loop fuel fdt name end_offset offset)
  unfolding property_loop
  property_loop-Finds zero end_offset offset name enough = absurd (omega arith)
  property_loop-Finds (suc fuel) end_offset offset name enough =
      Finds-if (leb end_offset offset) _ _ misses (
        Finds-option (read_token fdt offset) _ λ token here.
          property_step-Finds fuel end_offset offset token name
            (λ later. property_loop-Finds fuel end_offset later name) enough
            (read_token-within fdt small offset token here))

  pub get_property-Finds :
      (node : FdtNode) (name : List ℕ) → Finds IsValue (get_property fdt node name)
  unfolding get_property
  get_property-Finds node name =
      Finds-then _ (after_begin_node-Finds fdt small node.begin_offset) λ offset _.
        property_loop-Finds (length fdt.structure + 1) node.end_offset offset name
          (omega arith, omega arith)
