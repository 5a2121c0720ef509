-- ===== src/Dtb/Tree/Walks.antt =====
-- src/dtb_read.rs: nodes of a structure block that stands for a tree.
use rustfirmware.Base.{
  ℕ, suc, ◌+◌, ◌-◌, ◌*◌, ◌%◌, ◌^◌, ◌≤◌, ◌<◌, ◌≡◌, refl, ap, ◌∙◌, false, List, [], ◌++◌,
  append_assoc, some, length, length-append, ◌==◌, ok, arith,
}
use rustfirmware.Base.Bytes.{to_be_bytes}
use rustfirmware.Base.Word.{checked_add, checked_sub}
use rustfirmware.Dtb.Blob.{Fdt}
use rustfirmware.Dtb.Structure.{read_token, end_step, end_loop, node_end_offset, node_at_offset}
use rustfirmware.Dtb.Total.Reads.{IsSlice}
use rustfirmware.Dtb.Tree.{
  Items, done, property, padding, child, node_start, property_start, items_text, node_text, IsName,
  IsTree, tokens, node_of,
}
use rustfirmware.Dtb.Tree.Reads.{
  At, At-skip, At-length, read_token-At, read_c_string-At, after_begin_node-At, after_property-At,
  length-node_start, length-property_start,
}

-- Items take whole words, and at least one for each token.
pub items_text-words :
    (items : Items)
    → (length (items_text items) % 4 ≡ 0) × (4 * tokens items ≤ length (items_text items))
items_text-words done = (refl, omega arith)
items_text-words (property name_offset value items) =
    let (m, n) = items_text-words items in
    let long = length-property_start name_offset value in
    let parts = length-append (property_start name_offset value) (items_text items) in
    (omega (arith, long, parts), omega (arith, long, parts))
items_text-words (padding items) = let (m, n) = items_text-words items in (omega arith, omega arith)
items_text-words (child name inner items) =
    let (m, n) = items_text-words items in
    let (k, l) = items_text-words inner in
    let long = length-node_start name in
    let parts =
      length-append (node_start name) (items_text inner ++ (to_be_bytes 2 ++ items_text items)) in
    let more = length-append (items_text inner) (to_be_bytes 2 ++ items_text items) in
    (omega (arith, long, parts, more), omega (arith, long, parts, more))

module _ (fdt : Fdt) (small : IsSlice fdt.structure) where
  -- One round of the loop, for each token.
  module _ (fuel offset depth : ℕ) where
    end_begin :
        (pre name rest : List ℕ)
        → At fdt small pre (node_start name ++ rest) offset
        → IsName name
        → depth + 1 < 2 ^ 64
        → end_loop (suc fuel) fdt offset depth
          ≡ end_loop fuel fdt (offset + length (node_start name)) (depth + 1)
    unfolding end_loop end_step
    end_begin pre name rest a h room =
        let token : read_token fdt offset ≡ some 1 =
          read_token-At fdt small pre _ offset 1 a (omega arith) in
        let deeper : checked_add depth 1 ≡ some (depth + 1) = ground arith in
        rw (token, deeper, after_begin_node-At fdt small pre name rest offset a h) refl

    end_property :
        (pre value rest : List ℕ) (name_offset : ℕ)
        → At fdt small pre (property_start name_offset value ++ rest) offset
        → length value < 2 ^ 32
        → end_loop (suc fuel) fdt offset depth
          ≡ end_loop fuel fdt (offset + length (property_start name_offset value)) depth
    unfolding end_loop end_step
    end_property pre value rest name_offset a h =
        let token : read_token fdt offset ≡ some 3 =
          read_token-At fdt small pre _ offset 3 a (omega arith) in
        rw (token, after_property-At fdt small pre value rest name_offset offset a h) refl

    word_room :
        (pre rest : List ℕ) (value : ℕ)
        → At fdt small pre (to_be_bytes value ++ rest) offset
        → checked_add offset 4 ≡ some (offset + 4)
    word_room pre rest value a =
        ground (arith, At-length fdt small pre (to_be_bytes value ++ rest) offset a)

    end_padding :
        (pre rest : List ℕ)
        → At fdt small pre (to_be_bytes 4 ++ rest) offset
        → end_loop (suc fuel) fdt offset depth ≡ end_loop fuel fdt (offset + 4) depth
    unfolding end_loop end_step
    end_padding pre rest a =
        let token : read_token fdt offset ≡ some 4 =
          read_token-At fdt small pre rest offset 4 a (omega arith) in
        rw (token, word_room pre rest 4 a) refl

    -- The end token of a child, and of the node itself.
    end_inner :
        (pre rest : List ℕ)
        → At fdt small pre (to_be_bytes 2 ++ rest) offset
        → 0 < depth
        → end_loop (suc fuel) fdt offset (depth + 1) ≡ end_loop fuel fdt (offset + 4) depth
    unfolding end_loop end_step
    end_inner pre rest a inside =
        let token : read_token fdt offset ≡ some 2 =
          read_token-At fdt small pre rest offset 2 a (omega arith) in
        let outer : checked_sub (depth + 1) 1 ≡ some depth = ground arith in
        let still : (depth == 0) ≡ false = ground arith in
        rw (token, outer, still, word_room pre rest 2 a) refl

  end_outer :
      (fuel offset : ℕ) (pre rest : List ℕ)
      → At fdt small pre (to_be_bytes 2 ++ rest) offset
      → end_loop (suc fuel) fdt offset 1 ≡ ok offset
  unfolding end_loop end_step
  end_outer fuel offset pre rest a =
      let token : read_token fdt offset ≡ some 2 =
        read_token-At fdt small pre rest offset 2 a (omega arith) in
      rw token refl

  pub At-assoc :
      (pre skip more rest : List ℕ) (offset : ℕ)
      → At fdt small pre ((skip ++ more) ++ rest) offset
      → At fdt small pre (skip ++ (more ++ rest)) offset
  At-assoc pre skip more rest offset a = record {
    whole = a.whole ∙ ap (λ (t : List ℕ). pre ++ t) (append_assoc skip more rest);
    here = a.here;
    aligned = a.aligned;
  }

  -- The places in a node: its start, the items in it, its end, and what follows it.
  pub At-child :
      (pre name : List ℕ) (inner : Items) (more rest : List ℕ) (offset : ℕ)
      → let start : ℕ = length (node_start name) in
        let body : ℕ = length (items_text inner) in
        At fdt small pre
          ((node_start name ++ (items_text inner ++ (to_be_bytes 2 ++ more))) ++ rest)
          offset
        → At fdt small pre
            (node_start name ++ (items_text inner ++ (to_be_bytes 2 ++ (more ++ rest))))
            offset
          × At fdt small
              (pre ++ node_start name)
              (items_text inner ++ (to_be_bytes 2 ++ (more ++ rest)))
              (offset + start)
          × At fdt small
              ((pre ++ node_start name) ++ items_text inner)
              (to_be_bytes 2 ++ (more ++ rest))
              (offset + start + body)
          × At fdt small
              (((pre ++ node_start name) ++ items_text inner) ++ to_be_bytes 2)
              (more ++ rest)
              (offset + start + body + 4)
  At-child pre name inner more rest offset a =
      let start : ℕ = length (node_start name) in
      let body : ℕ = length (items_text inner) in
      let tail = to_be_bytes 2 ++ (more ++ rest) in
      let long = length-node_start name in
      let (words, _) = items_text-words inner in
      let b : At fdt small pre (node_start name ++ (items_text inner ++ tail)) offset = record {
        whole =
            a.whole
            ∙ ap (λ (t : List ℕ). pre ++ t)
                (append_assoc (node_start name) (items_text inner ++ (to_be_bytes 2 ++ more)) rest
                  ∙ ap (λ (t : List ℕ). node_start name ++ t)
                      (append_assoc (items_text inner) (to_be_bytes 2 ++ more) rest));
        here = a.here;
        aligned = a.aligned;
      } in
      let c =
        At-skip fdt small pre (node_start name) (items_text inner ++ tail) offset (offset + start) b
          refl (omega (arith, a.aligned, long)) in
      let d =
        At-skip fdt small (pre ++ node_start name) (items_text inner) tail (offset + start)
          (offset + start + body) c refl (omega (arith, a.aligned, long, words)) in
      let e =
        At-skip fdt small ((pre ++ node_start name) ++ items_text inner) (to_be_bytes 2)
          (more ++ rest) (offset + start + body) (offset + start + body + 4) d (omega arith)
          (omega (arith, a.aligned, long, words)) in
      (b, c, d, e)

  -- The loop passes the items and is at the same depth behind them.
  end_items :
      (items : Items) (fuel offset depth : ℕ) (pre rest : List ℕ)
      → At fdt small pre (items_text items ++ rest) offset
      → IsTree items
      → 0 < depth
      → depth + tokens items < 2 ^ 64
      → end_loop (tokens items + fuel) fdt offset depth
        ≡ end_loop fuel fdt (offset + length (items_text items)) depth
  end_items done fuel offset depth pre rest a t inside room =
      let e : offset + 0 ≡ offset = omega arith in
      let z : 0 + fuel ≡ fuel = omega arith in rw (e, z) refl
  end_items (property name_offset value items) fuel offset depth pre rest a (_, h, t) inside room =
      let skip = property_start name_offset value in
      let long = length-property_start name_offset value in
      let next : suc (tokens items) + fuel ≡ suc (tokens items + fuel) = omega arith in
      let b = At-assoc pre skip (items_text items) rest offset a in
      let c =
        At-skip fdt small pre skip (items_text items ++ rest) offset (offset + length skip) b refl
          (omega (arith, a.aligned, long)) in
      let sum : offset + length (skip ++ items_text items)
          ≡ offset + length skip + length (items_text items) =
        omega (arith, length-append skip (items_text items)) in
      rw (next, sum)
        (end_property (tokens items + fuel) offset depth pre value (items_text items ++ rest)
            name_offset b h
          ∙ end_items items fuel (offset + length skip) depth (pre ++ skip) rest c t inside
              (omega arith))
  end_items (padding items) fuel offset depth pre rest a t inside room =
      let next : suc (tokens items) + fuel ≡ suc (tokens items + fuel) = omega arith in
      let b =
        At-skip fdt small pre (to_be_bytes 4) (items_text items ++ rest) offset (offset + 4) a
          (omega arith) (omega (arith, a.aligned)) in
      let sum : offset + length (to_be_bytes 4 ++ items_text items)
          ≡ offset + 4 + length (items_text items) =
        omega arith in
      rw (next, sum)
        (end_padding (tokens items + fuel) offset depth pre (items_text items ++ rest) a
          ∙ end_items items fuel (offset + 4) depth (pre ++ to_be_bytes 4) rest b t inside
              (omega arith))
  end_items (child name inner items) fuel offset depth pre rest a (n, t, u) inside room =
      let (b, c, d, e) = At-child pre name inner (items_text items) rest offset a in
      let start = length (node_start name) in
      let body = length (items_text inner) in
      let next : suc (tokens inner + suc (tokens items)) + fuel
          ≡ suc (tokens inner + suc (tokens items + fuel)) =
        omega arith in
      let sum : offset + length (items_text (child name inner items))
          ≡ offset + start + body + 4 + length (items_text items) =
        omega (
          arith,
          length-append (node_start name) (items_text inner ++ (to_be_bytes 2 ++ items_text items)),
          length-append (items_text inner) (to_be_bytes 2 ++ items_text items),
        ) in
      rw (next, sum)
        (end_begin (tokens inner + suc (tokens items + fuel)) offset depth pre name _ b n
            (omega arith)
          ∙ end_items inner (suc (tokens items + fuel)) (offset + start) (depth + 1) _ _ c t
              (omega arith) (omega arith)
          ∙ end_inner (tokens items + fuel) (offset + start + body) depth _ _ d inside
          ∙ end_items items fuel (offset + start + body + 4) depth _ rest e u inside (omega arith))

  -- The loop of a node that stands at the offset ends at its end token.
  pub node_end_offset-At :
      (pre name rest : List ℕ) (inner : Items) (offset : ℕ)
      → At fdt small pre (node_text name inner ++ rest) offset
      → IsName name
      → IsTree inner
      → node_end_offset fdt offset
        ≡ ok (offset + length (node_start name) + length (items_text inner))
  unfolding node_end_offset
  node_end_offset-At pre name rest inner offset a n t =
      let (b, c, d, _) = At-child pre name inner [] rest offset a in
      let start = length (node_start name) in
      let (_, words) = items_text-words inner in
      let long = length-node_start name in
      let size : length fdt.structure
          ≡ offset + start + length (items_text inner) + 4 + length rest =
        omega (
          arith,
          At-length fdt small _ (to_be_bytes 2 ++ rest) (offset + start + length (items_text inner))
              d,
        ) in
      let left : ℕ = length fdt.structure - tokens inner - 1 in
      let fuel : length fdt.structure + 1 ≡ suc (tokens inner + suc left) =
        omega (arith, size, words, long) in
      let one : 0 + 1 ≡ 1 = omega arith in
      rw fuel (
        end_begin (tokens inner + suc left) offset 0 pre name _ b n (omega arith)
        ∙ end_items inner (suc left) (offset + start) (0 + 1) _ _ c t (omega arith)
            (omega (arith, size, words, long))
        ∙ rw one (end_outer left (offset + start + length (items_text inner)) _ rest d))

  -- A node of a tree is found at its place, with its name and its end.
  pub node_at_offset-node_of :
      (pre name rest : List ℕ) (inner : Items) (offset : ℕ)
      → At fdt small pre (node_text name inner ++ rest) offset
      → IsName name
      → IsTree inner
      → node_at_offset fdt offset ≡ ok (node_of offset name inner)
  unfolding node_at_offset
  node_at_offset-node_of pre name rest inner offset a n t =
      let (b, _, _, _) = At-child pre name inner [] rest offset a in
      let token : read_token fdt offset ≡ some 1 =
        read_token-At fdt small pre _ offset 1 b (omega arith) in
      let sum : checked_add offset 4 ≡ some (offset + 4) = ground (
        arith,
        At-length fdt small pre (node_start name ++ (items_text inner ++ (to_be_bytes 2 ++ rest)))
            offset b,
      ) in
      rw
        (
          token,
          sum,
          read_c_string-At fdt small pre name _ offset b n,
          node_end_offset-At pre name rest inner offset a n t,
        )
        refl
