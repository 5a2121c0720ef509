-- ===== src/Dtb/Tree/Reads.antt =====
-- src/dtb_read.rs: reading a structure block that stands for a tree.
use rustfirmware.Base.{
  ℕ, ◌+◌, ◌-◌, ◌%◌, ◌^◌, ◌<◌, ◌≡◌, refl, sym, ap, ◌∙◌, false, ◌||◌, List, [], ◌∷◌, ◌++◌,
  append_assoc, some, length, take, drop, replicate, length-append, length-replicate, ltb, ok,
  arith,
}
use rustfirmware.Base.Bytes.{to_be_bytes, from_be_bytes-to_be_bytes}
use rustfirmware.Base.Word.{checked_add}
use rustfirmware.Dtb.Bytes.{wrapping_add, get_range, get_from, position_nul, align4}
use rustfirmware.Dtb.Blob.{Fdt}
use rustfirmware.Dtb.Cells.{read_be_u32-at}
use rustfirmware.Dtb.Structure.{
  read_token, c_string, read_c_string, after_begin_node, after_property,
}
use rustfirmware.Dtb.Total.Reads.{IsSlice, align4_lem}
use rustfirmware.Dtb.Tree.{up4, padded, node_start, property_start, NoZero, IsName}

drop-at : (pre rest : List ℕ) → drop (length pre) (pre ++ rest) ≡ rest
drop-at [] rest = refl
drop-at (x ∷ pre) rest = drop-at pre rest

take-at : (mid rest : List ℕ) → take (length mid) (mid ++ rest) ≡ mid
take-at [] rest = refl
take-at (x ∷ mid) rest = ap (◌∷◌ x) (take-at mid rest)

pub length-padded : (bytes : List ℕ) → length (padded bytes) ≡ up4 (length bytes)
length-padded bytes = omega (
  arith,
  length-append bytes (replicate (up4 (length bytes) - length bytes) 0),
  length-replicate {A = ℕ} (up4 (length bytes) - length bytes) 0,
)

pub length-node_start : (name : List ℕ) → length (node_start name) ≡ 4 + up4 (length name + 1)
length-node_start name = omega (arith, length-padded (name ++ 0 ∷ []), length-append name (0 ∷ []))

pub length-property_start :
    (name_offset : ℕ) (value : List ℕ)
    → length (property_start name_offset value) ≡ 12 + up4 (length value)
length-property_start name_offset value = omega (arith, length-padded value)

position_nul-at :
    (name rest : List ℕ) → NoZero name → position_nul (name ++ 0 ∷ rest) ≡ some (length name)
unfolding position_nul
position_nul-at [] rest h = refl
position_nul-at (c ∷ name) rest (h, hs) = ground (arith, h, position_nul-at name rest hs)

padded_name :
    (name rest : List ℕ) → (more : List ℕ) × (padded (name ++ 0 ∷ []) ++ rest ≡ name ++ 0 ∷ more)
padded_name name rest =
    let zeros = replicate {A = ℕ} (up4 (length (name ++ 0 ∷ [])) - length (name ++ 0 ∷ [])) 0 in
    (
      zeros ++ rest,
      append_assoc (name ++ 0 ∷ []) zeros rest ∙ append_assoc name (0 ∷ []) (zeros ++ rest),
    )

module _ (fdt : Fdt) (small : IsSlice fdt.structure) where
  -- The rest of the structure block begins at the offset, which is a multiple of four.
  pub record At (pre rest : List ℕ) (offset : ℕ) : Type 0 where
    pub whole : fdt.structure ≡ pre ++ rest
    pub here : offset ≡ length pre
    pub aligned : offset % 4 ≡ 0

  pub At-skip :
      (pre skip rest : List ℕ) (offset later : ℕ)
      → At pre (skip ++ rest) offset
      → later ≡ offset + length skip
      → later % 4 ≡ 0
      → At (pre ++ skip) rest later
  At-skip pre skip rest offset later a e m = record {
    whole = a.whole ∙ sym (append_assoc pre skip rest);
    here = omega (arith, e, a.here, length-append pre skip);
    aligned = m;
  }

  pub At-length :
      (pre rest : List ℕ) (offset : ℕ)
      → At pre rest offset
      → length fdt.structure ≡ offset + length rest
  At-length pre rest offset a = ap length a.whole ∙ omega (arith, a.here, length-append pre rest)

  At-drop : (pre rest : List ℕ) (offset : ℕ) → At pre rest offset → drop offset fdt.structure ≡ rest
  At-drop pre rest offset a = rw (a.whole, a.here) (drop-at pre rest)

  -- A word of the block.
  pub read_token-At :
      (pre rest : List ℕ) (offset value : ℕ)
      → At pre (to_be_bytes value ++ rest) offset
      → value < 2 ^ 32
      → read_token fdt offset ≡ some value
  unfolding read_token
  read_token-At pre rest offset value a h =
      read_be_u32-at fdt.structure offset small
        (omega (arith, At-length pre (to_be_bytes value ++ rest) offset a))
      ∙ rw (At-drop pre (to_be_bytes value ++ rest) offset a)
          (ap some (from_be_bytes-to_be_bytes value h))

  get_from-At :
      (pre rest : List ℕ) (offset : ℕ)
      → At pre rest offset
      → get_from fdt.structure offset ≡ some rest
  unfolding get_from
  get_from-At pre rest offset a =
      let test : ltb (length fdt.structure) offset ≡ false =
        ground (arith, At-length pre rest offset a) in
      rw test (ap some (At-drop pre rest offset a))

  c_string-at :
      (name rest : List ℕ) → IsName name → c_string (name ++ 0 ∷ rest) ≡ ok (name, length name)
  c_string-at name rest (h, valid) =
      rw (position_nul-at name rest h, take-at name (0 ∷ rest), valid) refl

  pub read_c_string-At :
      (pre name rest : List ℕ) (offset : ℕ)
      → At pre (node_start name ++ rest) offset
      → IsName name
      → read_c_string fdt.structure (offset + 4) ≡ ok (name, offset + 5 + length name)
  unfolding read_c_string
  read_c_string-At pre name rest offset a h =
      let (more, e) = padded_name name rest in
      let b =
        At-skip pre (to_be_bytes 1) (padded (name ++ 0 ∷ []) ++ rest) offset (offset + 4) a
          (omega arith) (omega (arith, a.aligned)) in
      let size = At-length pre (node_start name ++ rest) offset a in
      let parts = length-append (node_start name) rest in
      let after : wrapping_add (wrapping_add (offset + 4) (length name)) 1
          ≡ offset + 5 + length name =
        omega (arith, size, parts, length-node_start name) in
      rw
        (
          get_from-At (pre ++ to_be_bytes 1) (padded (name ++ 0 ∷ []) ++ rest) (offset + 4) b,
          e,
          c_string-at name more h,
          after,
        )
        refl

  pub after_begin_node-At :
      (pre name rest : List ℕ) (offset : ℕ)
      → At pre (node_start name ++ rest) offset
      → IsName name
      → after_begin_node fdt offset ≡ ok (offset + length (node_start name))
  unfolding after_begin_node
  after_begin_node-At pre name rest offset a h =
      let token = read_token-At pre (padded (name ++ 0 ∷ []) ++ rest) offset 1 a (omega arith) in
      let size = At-length pre (node_start name ++ rest) offset a in
      let parts = length-append (node_start name) rest in
      let sum : checked_add offset 4 ≡ some (offset + 4) =
        ground (arith, size, parts, length-node_start name) in
      let end : align4 (offset + 5 + length name) ≡ offset + length (node_start name) =
        align4_lem (offset + 5 + length name) (omega (arith, size, parts, length-node_start name))
        ∙ omega (arith, a.aligned, length-node_start name) in
      rw (token, sum, read_c_string-At pre name rest offset a h) (ap ok end)

  -- A property at the offset.
  module _ (pre value rest : List ℕ) (name_offset offset : ℕ)
      (a : At pre (property_start name_offset value ++ rest) offset)
      (h : length value < 2 ^ 32) where
    property_size :
        (length fdt.structure ≡ offset + 12 + up4 (length value) + length rest)
        × (length (property_start name_offset value) ≡ 12 + up4 (length value))
    property_size =
        let long = length-property_start name_offset value in
        (
          omega (
            arith,
            At-length pre (property_start name_offset value ++ rest) offset a,
            length-append (property_start name_offset value) rest,
            long,
          ),
          long,
        )

    pub property_length-At : read_token fdt (wrapping_add offset 4) ≡ some (length value)
    property_length-At =
        let (size, _) = property_size in
        let four : wrapping_add offset 4 ≡ offset + 4 = omega (arith, size) in
        let b =
          At-skip pre (to_be_bytes 3)
            (to_be_bytes (length value) ++ (to_be_bytes name_offset ++ (padded value ++ rest)))
            offset (offset + 4) a (omega arith) (omega (arith, a.aligned)) in
        rw four (
          read_token-At (pre ++ to_be_bytes 3) (to_be_bytes name_offset ++ (padded value ++ rest))
            (offset + 4) (length value) b h)

    pub property_name-At :
        name_offset < 2 ^ 32 → read_token fdt (wrapping_add offset 8) ≡ some name_offset
    property_name-At k =
        let (size, _) = property_size in
        let eight : wrapping_add offset 8 ≡ offset + 8 = omega (arith, size) in
        let skip = to_be_bytes 3 ++ to_be_bytes (length value) in
        let b =
          At-skip pre skip (to_be_bytes name_offset ++ (padded value ++ rest)) offset (offset + 8) a
            (omega arith) (omega (arith, a.aligned)) in
        rw eight (read_token-At (pre ++ skip) (padded value ++ rest) (offset + 8) name_offset b k)

    pub value_end-At :
        (wrapping_add offset 12 ≡ offset + 12)
        × (checked_add offset 12 ≡ some (offset + 12))
        × (checked_add (offset + 12) (length value) ≡ some (offset + 12 + length value))
        × (align4 (offset + 12 + length value) ≡ offset + length (property_start name_offset value))
    value_end-At =
        let (size, long) = property_size in
        (
          omega (arith, size),
          ground (arith, size),
          ground (arith, size),
          align4_lem (offset + 12 + length value) (omega (arith, size))
              ∙ omega (arith, a.aligned, long),
        )

    pub value-At : get_range fdt.structure (offset + 12) (offset + 12 + length value) ≡ some value
    unfolding get_range
    value-At =
        let (size, long) = property_size in
        let skip = to_be_bytes 3 ++ (to_be_bytes (length value) ++ to_be_bytes name_offset) in
        let zeros = replicate {A = ℕ} (up4 (length value) - length value) 0 in
        let b =
          At-skip pre skip (padded value ++ rest) offset (offset + 12) a (omega arith)
            (omega (arith, a.aligned)) in
        let test : ltb (offset + 12 + length value) (offset + 12)
              || ltb (length fdt.structure) (offset + 12 + length value)
            ≡ false =
          ground (arith, size) in
        let n : offset + 12 + length value - (offset + 12) ≡ length value = omega arith in
        rw
          (
            test,
            n,
            At-drop (pre ++ skip) (padded value ++ rest) (offset + 12) b,
            append_assoc value zeros rest,
          )
          (ap some (take-at value (zeros ++ rest)))

    pub after_property-At :
        after_property fdt offset ≡ ok (offset + length (property_start name_offset value))
    unfolding after_property
    after_property-At =
        let (_, first, second, end) = value_end-At in
        rw (property_length-At, first, second, value-At) (ap ok end)
