-- ===== src/Dtb/Follows/Nodes.antt =====
-- src/dtb_read.rs: the nodes that `for_each_child` calls its callback with, whatever the blob is.
use rustfirmware.Base.{
  ℕ, zero, suc, ◌+◌, ◌≡◌, refl, Bool, true, false, [], Option, none, some, length, leb, ◌==◌, ok,
  out_of_fuel, ◌>>=◌,
}
use rustfirmware.Base.Word.{checked_add}
use rustfirmware.Dtb.Bytes.{Run, attempt, wrapping_add}
use rustfirmware.Dtb.Blob.{Fdt}
use rustfirmware.Dtb.Structure.{
  fdt_begin_node, fdt_prop, fdt_nop, FdtNode, read_token, after_property, after_begin_node,
  node_at_offset, after_visit, visit_child, skip_property, child_step, child_loop, children_from,
  for_each_child,
}
use rustfirmware.Dtb.Follows.{
  Callback, continue, bind_ext, Follows, follows, Follows-bind, Follows-if, Follows-call,
  Follows-same,
}

module _ (fdt : Fdt) where
  -- What follows a call, where there is a next offset and where there is none.
  after_last :
      {S : Type 0} (visit : Callback FdtNode S) (next : ℕ → S → Run S) (r : Bool × S)
      → after_visit fdt visit next none r ≡ continue (λ s. ok s) r
  unfolding after_visit
  after_last visit next (true, s) = refl
  after_last visit next (false, s) = refl

  after_next :
      {S : Type 0} (visit : Callback FdtNode S) (next : ℕ → S → Run S) (offset : ℕ) (r : Bool × S)
      → after_visit fdt visit next (some offset) r ≡ continue (next offset) r
  unfolding after_visit
  after_next visit next offset (true, s) = refl
  after_next visit next offset (false, s) = refl

  nothing : Follows {X = FdtNode} (λ S visit state. ok state)
  nothing = follows [] (ok tt) (λ S visit state. refl)

  module _ (fuel end_offset : ℕ)
      (next : (offset : ℕ)
        → Follows (λ S visit state. child_loop fdt visit fuel end_offset offset state)) where
    called-Follows :
        (child : FdtNode) (o : Option ℕ)
        → Follows (λ S visit state.
          visit child state >>= after_visit fdt visit (child_loop fdt visit fuel end_offset) o)
    called-Follows child none =
        Follows-same _ (λ S visit state. visit child state >>= continue (λ s. ok s))
          (λ S visit state.
            bind_ext (visit child state) _ _
              (after_last visit (child_loop fdt visit fuel end_offset)))
          (Follows-call child (λ S visit state. ok state) nothing)
    called-Follows child (some offset) =
        Follows-same _
          (λ S visit state.
            visit child state >>= continue (child_loop fdt visit fuel end_offset offset))
          (λ S visit state.
            bind_ext (visit child state) _ _
              (after_next visit (child_loop fdt visit fuel end_offset) offset))
          (Follows-call child (λ S visit state. child_loop fdt visit fuel end_offset offset state)
            (next offset))

    visit_child-Follows :
        (o : Option FdtNode)
        → Follows
            (λ S visit state. visit_child fdt visit (child_loop fdt visit fuel end_offset) state o)
    unfolding visit_child
    visit_child-Follows none = nothing
    visit_child-Follows (some child) = called-Follows child (checked_add child.end_offset 4)

    skip_property-Follows :
        (o : Option ℕ)
        → Follows (λ S visit state.
          skip_property fdt visit (child_loop fdt visit fuel end_offset) state o)
    unfolding skip_property
    skip_property-Follows none = nothing
    skip_property-Follows (some offset) = next offset

    child_step-Follows :
        (offset : ℕ) (o : Option ℕ)
        → Follows (λ S visit state.
          child_step fdt visit (child_loop fdt visit fuel end_offset) offset state o)
    unfolding child_step
    child_step-Follows offset none = nothing
    child_step-Follows offset (some token) =
        Follows-if (token == fdt_prop) _ _
          (Follows-bind (attempt (after_property fdt offset)) _ skip_property-Follows)
          (Follows-if (token == fdt_nop) _ _ (next (wrapping_add offset 4)) (
            Follows-if (token == fdt_begin_node) _ _
              (Follows-bind (attempt (node_at_offset fdt offset)) _ visit_child-Follows) nothing))

  child_loop-Follows :
      (fuel end_offset offset : ℕ)
      → Follows (λ S visit state. child_loop fdt visit fuel end_offset offset state)
  unfolding child_loop
  child_loop-Follows zero end_offset offset = follows [] out_of_fuel (λ S visit state. refl)
  child_loop-Follows (suc fuel) end_offset offset = Follows-if (leb end_offset offset) _ _ nothing (
      child_step-Follows fuel end_offset (child_loop-Follows fuel end_offset) offset
        (read_token fdt offset))

  children_from-Follows :
      (end_offset : ℕ) (o : Option ℕ)
      → Follows (λ S visit state. children_from fdt visit end_offset state o)
  children_from-Follows end_offset none = nothing
  children_from-Follows end_offset (some offset) =
      child_loop-Follows (length fdt.structure + 1) end_offset offset

  pub for_each_child-Follows :
      (parent : FdtNode) → Follows (λ S visit state. for_each_child fdt visit parent state)
  unfolding for_each_child
  for_each_child-Follows parent =
      Follows-bind (attempt (after_begin_node fdt parent.begin_offset)) _
        (children_from-Follows parent.end_offset)
