-- ===== src/Dtb/Tree/Children.antt =====
-- src/dtb_read.rs: the walk over the children of a node of a tree, and its properties.
use rustfirmware.Base.{
  ℕ, suc, ◌+◌, ◌-◌, ◌≡◌, refl, sym, ap, ◌∙◌, Bool, true, false, List, [], ◌∷◌, ◌++◌, append_assoc,
  some, length, length-append, leb, ok, ◌>>=◌, arith,
}
use rustfirmware.Base.Bytes.{to_be_bytes}
use rustfirmware.Base.Word.{checked_add}
use rustfirmware.Dtb.Bytes.{Run, wrapping_add}
use rustfirmware.Dtb.Blob.{Fdt}
use rustfirmware.Dtb.Structure.{
  FdtNode, read_token, after_visit, visit_child, skip_property, child_step, child_loop,
  for_each_child,
}
use rustfirmware.Dtb.Follows.{bind_ext}
use rustfirmware.Dtb.Total.Reads.{IsSlice}
use rustfirmware.Dtb.Tree.{
  Items, done, property, padding, child, node_start, property_start, items_text, node_text, IsName,
  IsTree, tokens, node_of, children,
}
use rustfirmware.Dtb.Tree.Reads.{
  At, At-skip, At-length, read_token-At, after_begin_node-At, after_property-At, length-node_start,
  length-property_start,
}
use rustfirmware.Dtb.Tree.Walks.{items_text-words, At-assoc, At-child, node_at_offset-node_of}

-- The callback at each node in turn, until it returns false.
abbrev pub go_on : {S : Type 0} → (S → Run S) → Bool × S → Run S
go_on next (false, state) = ok state
go_on next (true, state) = next state

abbrev pub visit_nodes : {S : Type 0} → (FdtNode → S → Run (Bool × S)) → List FdtNode → S → Run S
visit_nodes visit [] state = ok state
visit_nodes visit (node ∷ nodes) state = visit node state >>= go_on (visit_nodes visit nodes)

pub length-node_text :
    (name : List ℕ) (inner : Items)
    → length (node_text name inner) ≡ length (node_start name) + length (items_text inner) + 4
length-node_text name inner = omega (
  arith,
  length-append (node_start name) (items_text inner ++ to_be_bytes 2),
  length-append (items_text inner) (to_be_bytes 2),
)

pub At-node :
    (fdt : Fdt) (small : IsSlice fdt.structure) (pre name rest : List ℕ) (inner : Items)
    (offset : ℕ)
    → At fdt small pre (node_start name ++ (items_text inner ++ (to_be_bytes 2 ++ rest))) offset
    → At fdt small pre (node_text name inner ++ rest) offset
At-node fdt small pre name rest inner offset a = record {
  whole =
      a.whole
      ∙ ap (λ (t : List ℕ). pre ++ t)
          (ap (λ (t : List ℕ). node_start name ++ t)
              (sym (append_assoc (items_text inner) (to_be_bytes 2) rest))
            ∙ sym (append_assoc (node_start name) (items_text inner ++ to_be_bytes 2) rest));
  here = a.here;
  aligned = a.aligned;
}

module _ (fdt : Fdt) (small : IsSlice fdt.structure) {S : Type 0}
    (visit : FdtNode → S → Run (Bool × S)) where
  after_visit-go_on :
      (next : ℕ → S → Run S) (other : S → Run S) (offset : ℕ)
      → ((state : S) → next offset state ≡ other state)
      → (r : Bool × S) → after_visit fdt visit next (some offset) r ≡ go_on other r
  unfolding after_visit
  after_visit-go_on next other offset h (false, state) = refl
  after_visit-go_on next other offset h (true, state) = h state

  -- The loop before the items, which go on to the end of the node.
  child_loop-visit_nodes :
      (items : Items) (fuel end offset : ℕ) (pre rest : List ℕ) (state : S)
      → At fdt small pre (items_text items ++ (to_be_bytes 2 ++ rest)) offset
      → IsTree items
      → end ≡ offset + length (items_text items)
      → child_loop fdt visit (suc (tokens items + fuel)) end offset state
        ≡ visit_nodes visit (children offset items) state
  unfolding child_loop child_step skip_property visit_child
  child_loop-visit_nodes done fuel end offset pre rest state a t e =
      let past : leb end offset ≡ true = ground (arith, e) in rw past refl
  child_loop-visit_nodes (property name_offset value items) fuel end offset pre rest state a
        (_, h, t) e =
      let skip = property_start name_offset value in
      let long = length-property_start name_offset value in
      let parts = length-append skip (items_text items) in
      let b = At-assoc fdt small pre skip (items_text items) (to_be_bytes 2 ++ rest) offset a in
      let c =
        At-skip fdt small pre skip (items_text items ++ (to_be_bytes 2 ++ rest)) offset
          (offset + length skip) b refl (omega (arith, a.aligned, long)) in
      let inside : leb end offset ≡ false = ground (arith, e, long, parts) in
      let token : read_token fdt offset ≡ some 3 =
        read_token-At fdt small pre _ offset 3 b (omega arith) in
      let next : suc (tokens items) + fuel ≡ suc (tokens items + fuel) = omega arith in
      rw (inside, token, after_property-At fdt small pre value _ name_offset offset b h, next)
        (child_loop-visit_nodes items fuel end (offset + length skip) (pre ++ skip) rest state c t
          (omega (arith, e, parts)))
  child_loop-visit_nodes (padding items) fuel end offset pre rest state a t e =
      let b =
        At-skip fdt small pre (to_be_bytes 4) (items_text items ++ (to_be_bytes 2 ++ rest)) offset
          (offset + 4) a (omega arith) (omega (arith, a.aligned)) in
      let size = At-length fdt small pre _ offset a in
      let inside : leb end offset ≡ false = ground (arith, e) in
      let token : read_token fdt offset ≡ some 4 =
        read_token-At fdt small pre _ offset 4 a (omega arith) in
      let next : suc (tokens items) + fuel ≡ suc (tokens items + fuel) = omega arith in
      let sum : wrapping_add offset 4 ≡ offset + 4 = omega (arith, size) in
      rw (inside, token, sum, next)
        (child_loop-visit_nodes items fuel end (offset + 4) (pre ++ to_be_bytes 4) rest state b t
          (omega (arith, e)))
  child_loop-visit_nodes (child name inner items) fuel end offset pre rest state a (n, t, u) e =
      let (b, _, _, d) =
        At-child fdt small pre name inner (items_text items) (to_be_bytes 2 ++ rest) offset a in
      let more = items_text items ++ (to_be_bytes 2 ++ rest) in
      let long = length-node_start name in
      let body = length-append (items_text inner) (to_be_bytes 2 ++ items_text items) in
      let parts =
        length-append (node_start name) (items_text inner ++ (to_be_bytes 2 ++ items_text items)) in
      let whole = length-node_text name inner in
      let size =
        At-length fdt small _ more
          (offset + length (node_start name) + length (items_text inner) + 4) d in
      let inside : leb end offset ≡ false = ground (arith, e, long, parts) in
      let token : read_token fdt offset ≡ some 1 =
        read_token-At fdt small pre _ offset 1 b (omega arith) in
      let next : suc (tokens inner + suc (tokens items)) + fuel
          ≡ suc (tokens items + (tokens inner + 1 + fuel)) =
        omega arith in
      let last : ℕ = offset + length (node_start name) + length (items_text inner) in
      let sum : checked_add last 4 ≡ some (last + 4) = ground (arith, size) in
      let after : last + 4 ≡ offset + length (node_text name inner) = omega (arith, whole) in
      rw
        (
          inside,
          token,
          node_at_offset-node_of fdt small pre name more inner offset
              (At-node fdt small pre name more inner offset b) n t,
          next,
          sum,
          after,
        )
        (bind_ext (visit (node_of offset name inner) state) _ _ (
          after_visit-go_on
            (child_loop fdt visit (suc (tokens items + (tokens inner + 1 + fuel))) end) _
            (offset + length (node_text name inner))
            λ state'.
              child_loop-visit_nodes items (tokens inner + 1 + fuel) end
                (offset + length (node_text name inner)) _ rest state' (rw after at d) u
                (omega (arith, e, whole, parts, body))))

  -- The callback is called at each child of a node of a tree, in their order, with the child's name and
  -- place, until it returns false.
  pub for_each_child-visit_nodes :
      (pre name rest : List ℕ) (inner : Items) (offset : ℕ) (state : S)
      → At fdt small pre (node_text name inner ++ rest) offset
      → IsName name
      → IsTree inner
      → for_each_child fdt visit (node_of offset name inner) state
        ≡ visit_nodes visit (children (offset + length (node_start name)) inner) state
  unfolding for_each_child
  for_each_child-visit_nodes pre name rest inner offset state a n t =
      let (b, c, d, _) = At-child fdt small pre name inner [] rest offset a in
      let (_, words) = items_text-words inner in
      let size =
        At-length fdt small _ (to_be_bytes 2 ++ rest)
          (offset + length (node_start name) + length (items_text inner)) d in
      let fuel : length fdt.structure + 1
          ≡ suc (tokens inner + (length fdt.structure - tokens inner)) =
        omega (arith, size, words) in
      rw (after_begin_node-At fdt small pre name _ offset b n, fuel)
        (child_loop-visit_nodes inner (length fdt.structure - tokens inner) _
          (offset + length (node_start name)) _ rest state c t refl)
