-- ===== src/Dtb/Tree/Properties.antt =====
-- src/dtb_read.rs: the properties of a node of a tree.
use rustfirmware.Base.{
  ℕ, suc, ◌+◌, ◌-◌, ◌≡◌, refl, Bool, true, false, List, [], ◌++◌, some, length, length-append, leb,
  if◌then◌else◌, ok, err, panic, out_of_fuel, ◌>>=◌, arith,
}
use rustfirmware.Base.Bytes.{to_be_bytes, bytes_eq}
use rustfirmware.Dtb.Bytes.{absent, Search, wrapping_add}
use rustfirmware.Dtb.Blob.{Fdt}
use rustfirmware.Dtb.Structure.{read_token, string_at}
use rustfirmware.Dtb.Query.{property_step, property_loop, get_property}
use rustfirmware.Dtb.Total.Reads.{IsSlice}
use rustfirmware.Dtb.Tree.{
  Items, done, property, padding, child, node_start, property_start, items_text, node_text, IsName,
  IsTree, tokens, node_of,
}
use rustfirmware.Dtb.Tree.Reads.{
  At, At-skip, At-length, read_token-At, after_begin_node-At, property_length-At, property_name-At,
  value_end-At, value-At, length-node_start, length-property_start,
}
use rustfirmware.Dtb.Tree.Walks.{items_text-words, At-assoc, At-child}

-- The value of the first property with the name, before the first child. A property whose name cannot
-- be read ends the search.
abbrev pub property_value : Fdt → List ℕ → Items → Search (List ℕ)
property_value fdt property_name done = err absent
property_value fdt property_name (property name_offset value items) =
    let later = property_value fdt property_name items in
    string_at fdt name_offset >>= λ name. if bytes_eq name property_name then ok value else later
property_value fdt property_name (padding items) = property_value fdt property_name items
property_value fdt property_name (child name inner items) = err absent

search_same :
    {A B : Type 0} (r : Search A) (f g : A → Search B)
    → ((a : A) → f a ≡ g a)
    → (r >>= f) ≡ (r >>= g)
search_same (ok a) f g h = h a
search_same (err e) f g h = refl
search_same panic f g h = refl
search_same out_of_fuel f g h = refl

if_same :
    {A : Type 0} (test : Bool) (a b c : A)
    → b ≡ c
    → (if test then a else b) ≡ (if test then a else c)
if_same true a b c h = refl
if_same false a b c h = h

module _ (fdt : Fdt) (small : IsSlice fdt.structure) (property_name : List ℕ) where
  property_loop-property_value :
      (items : Items) (fuel end offset : ℕ) (pre rest : List ℕ)
      → At fdt small pre (items_text items ++ (to_be_bytes 2 ++ rest)) offset
      → IsTree items
      → end ≡ offset + length (items_text items)
      → property_loop (suc (tokens items + fuel)) fdt property_name end offset
        ≡ property_value fdt property_name items
  unfolding property_loop property_step
  property_loop-property_value done fuel end offset pre rest a t e =
      let past : leb end offset ≡ true = ground (arith, e) in rw past refl
  property_loop-property_value (property name_offset value items) fuel end offset pre rest a
        (k, h, t) e =
      let skip = property_start name_offset value in
      let long = length-property_start name_offset value in
      let parts = length-append skip (items_text items) in
      let b = At-assoc fdt small pre skip (items_text items) (to_be_bytes 2 ++ rest) offset a in
      let c =
        At-skip fdt small pre skip (items_text items ++ (to_be_bytes 2 ++ rest)) offset
          (offset + length skip) b refl (omega (arith, a.aligned, long)) in
      let inside : leb end offset ≡ false = ground (arith, e, long, parts) in
      let token : read_token fdt offset ≡ some 3 =
        read_token-At fdt small pre _ offset 3 b (omega arith) in
      let next : suc (tokens items) + fuel ≡ suc (tokens items + fuel) = omega arith in
      let more = items_text items ++ (to_be_bytes 2 ++ rest) in
      let (first, _, second, after) =
        value_end-At fdt small pre value more name_offset offset b h in
      rw
        (
          inside,
          token,
          property_length-At fdt small pre value more name_offset offset b h,
          property_name-At fdt small pre value more name_offset offset b h k,
          first,
          second,
          value-At fdt small pre value more name_offset offset b h,
          after,
          next,
        )
        (search_same (string_at fdt name_offset) _ _ λ name.
          if_same (bytes_eq name property_name) (ok value) _ _ (
            property_loop-property_value items fuel end (offset + length skip) (pre ++ skip) rest c
              t (omega (arith, e, parts))))
  property_loop-property_value (padding items) fuel end offset pre rest a t e =
      let b =
        At-skip fdt small pre (to_be_bytes 4) (items_text items ++ (to_be_bytes 2 ++ rest)) offset
          (offset + 4) a (omega arith) (omega (arith, a.aligned)) in
      let size = At-length fdt small pre _ offset a in
      let inside : leb end offset ≡ false = ground (arith, e) in
      let token : read_token fdt offset ≡ some 4 =
        read_token-At fdt small pre _ offset 4 a (omega arith) in
      let next : suc (tokens items) + fuel ≡ suc (tokens items + fuel) = omega arith in
      let sum : wrapping_add offset 4 ≡ offset + 4 = omega (arith, size) in
      rw (inside, token, sum, next)
        (property_loop-property_value items fuel end (offset + 4) (pre ++ to_be_bytes 4) rest b t
          (omega (arith, e)))
  property_loop-property_value (child name inner items) fuel end offset pre rest a t e =
      let (b, _, _, _) =
        At-child fdt small pre name inner (items_text items) (to_be_bytes 2 ++ rest) offset a in
      let long = length-node_start name in
      let parts =
        length-append (node_start name) (items_text inner ++ (to_be_bytes 2 ++ items_text items)) in
      let inside : leb end offset ≡ false = ground (arith, e, long, parts) in
      let token : read_token fdt offset ≡ some 1 =
        read_token-At fdt small pre _ offset 1 b (omega arith) in
      rw (inside, token) refl

  -- get_property of a node of a tree gives the value of the first property with the name among those
  -- before the first child; there is none where the name of a property before it cannot be read.
  pub get_property-property_value :
      (pre name rest : List ℕ) (inner : Items) (offset : ℕ)
      → At fdt small pre (node_text name inner ++ rest) offset
      → IsName name
      → IsTree inner
      → get_property fdt (node_of offset name inner) property_name
        ≡ property_value fdt property_name inner
  unfolding get_property
  get_property-property_value pre name rest inner offset a n t =
      let (b, c, d, _) = At-child fdt small pre name inner [] rest offset a in
      let (_, words) = items_text-words inner in
      let size =
        At-length fdt small _ (to_be_bytes 2 ++ rest)
          (offset + length (node_start name) + length (items_text inner)) d in
      let fuel : length fdt.structure + 1
          ≡ suc (tokens inner + (length fdt.structure - tokens inner)) =
        omega (arith, size, words) in
      rw (after_begin_node-At fdt small pre name _ offset b n, fuel)
        (property_loop-property_value inner (length fdt.structure - tokens inner) _
          (offset + length (node_start name)) _ rest c t refl)
