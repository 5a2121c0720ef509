-- ===== src/Dtb/Structure.antt =====
-- src/dtb_read.rs: the tokens of the structure block, nodes, and the walk over a node's children.
use rustfirmware.Base.{
  ℕ, zero, suc, ◌+◌, Bool, true, false, List, Option, none, some, length, take, leb, ◌==◌, ◌!=◌,
  if◌then◌else◌, ok, err, out_of_fuel, ok_or, ◌>>=◌,
}
use rustfirmware.Base.Word.{checked_add, checked_sub}
use rustfirmware.Dtb.Bytes.{
  absent, Search, Run, attempt, wrapping_add, get_range, get_from, position_nul, from_utf8, align4,
  read_be_u32_from_slice,
}
use rustfirmware.Dtb.Blob.{Fdt}

abbrev pub fdt_begin_node : ℕ
fdt_begin_node = 1

abbrev pub fdt_end_node : ℕ
fdt_end_node = 2

abbrev pub fdt_prop : ℕ
fdt_prop = 3

abbrev pub fdt_nop : ℕ
fdt_nop = 4

abbrev pub fdt_end : ℕ
fdt_end = 9

pub record FdtNode : Type 0 where
  pub name : List ℕ
  pub begin_offset : ℕ
  pub end_offset : ℕ

unfoldable pub read_token : Fdt → ℕ → Option ℕ
read_token fdt offset = read_be_u32_from_slice fdt.structure offset

-- The bytes up to the first zero byte, as a text.
abbrev pub c_string : List ℕ → Search (List ℕ × ℕ)
c_string rest = do
  end ← ok_or (position_nul rest) absent
  name ← ok_or (from_utf8 (take end rest)) absent
  ok (name, end)

unfoldable pub string_at : Fdt → ℕ → Search (List ℕ)
string_at fdt offset = do
  bytes ← ok_or (get_from fdt.strings offset) absent
  (name, end) ← c_string bytes
  ok name

unfoldable pub read_c_string : List ℕ → ℕ → Search (List ℕ × ℕ)
read_c_string bytes offset = do
  rest ← ok_or (get_from bytes offset) absent
  (name, end) ← c_string rest
  ok (name, wrapping_add (wrapping_add offset end) 1)

unfoldable pub after_begin_node : Fdt → ℕ → Search ℕ
after_begin_node fdt begin_offset = do
  token ← ok_or (read_token fdt begin_offset) absent
  if token != fdt_begin_node then err absent else (do
    name_offset ← ok_or (checked_add begin_offset 4) absent
    (_, next_offset) ← read_c_string fdt.structure name_offset
    ok (align4 next_offset))

unfoldable pub after_property : Fdt → ℕ → Search ℕ
after_property fdt property_offset = do
  length_ ← ok_or (read_token fdt (wrapping_add property_offset 4)) absent
  value_offset ← ok_or (checked_add property_offset 12) absent
  value_end ← ok_or (checked_add value_offset length_) absent
  _ ← ok_or (get_range fdt.structure value_offset value_end) absent
  ok (align4 value_end)

-- One token of the loop of `node_end_offset`; `next` is the rest of the loop, by offset and depth.
unfoldable pub end_step : (ℕ → ℕ → Search ℕ) → Fdt → ℕ → ℕ → ℕ → Search ℕ
end_step next fdt offset depth token =
    if token == fdt_begin_node
    then (do
      deeper ← ok_or (checked_add depth 1) absent
      after ← after_begin_node fdt offset
      next after deeper)
    else if token == fdt_end_node
    then (do
      outer ← ok_or (checked_sub depth 1) absent
      if outer == 0
          then ok offset
          else (do after ← ok_or (checked_add offset 4) absent; next after outer))
    else if token == fdt_prop
    then (do after ← after_property fdt offset; next after depth)
    else if token == fdt_nop
    then (do after ← ok_or (checked_add offset 4) absent; next after depth)
    else err absent

unfoldable pub end_loop : ℕ → Fdt → ℕ → ℕ → Search ℕ
end_loop zero fdt offset depth = out_of_fuel
end_loop (suc fuel) fdt offset depth = do
  token ← ok_or (read_token fdt offset) absent
  end_step (end_loop fuel fdt) fdt offset depth token

-- Each round moves the offset on, so a round for each byte and one more are enough.
unfoldable pub node_end_offset : Fdt → ℕ → Search ℕ
node_end_offset fdt begin_offset = end_loop (length fdt.structure + 1) fdt begin_offset 0

unfoldable pub node_at_offset : Fdt → ℕ → Search FdtNode
node_at_offset fdt offset = do
  token ← ok_or (read_token fdt offset) absent
  if token != fdt_begin_node then err absent else (do
    name_offset ← ok_or (checked_add offset 4) absent
    (name, _) ← read_c_string fdt.structure name_offset
    end_offset ← node_end_offset fdt offset
    ok (record { name = name; begin_offset = offset; end_offset = end_offset }))

unfoldable pub root_node : Fdt → Search FdtNode
root_node fdt = node_at_offset fdt 0

-- The callback returns whether to go on, with the state that it has left.
module _ {S : Type 0} (fdt : Fdt) (visit : FdtNode → S → Run (Bool × S)) where
  unfoldable pub after_visit : (ℕ → S → Run S) → Option ℕ → Bool × S → Run S
  after_visit next next_offset (false, state) = ok state
  after_visit next none (true, state) = ok state
  after_visit next (some offset) (true, state) = next offset state

  unfoldable pub visit_child : (ℕ → S → Run S) → S → Option FdtNode → Run S
  visit_child next state none = ok state
  visit_child next state (some child) =
      visit child state >>= after_visit next (checked_add child.end_offset 4)

  unfoldable pub skip_property : (ℕ → S → Run S) → S → Option ℕ → Run S
  skip_property next state none = ok state
  skip_property next state (some offset) = next offset state

  unfoldable pub child_step : (ℕ → S → Run S) → ℕ → S → Option ℕ → Run S
  child_step next offset state none = ok state
  child_step next offset state (some token) =
      if token == fdt_prop
      then attempt (after_property fdt offset) >>= skip_property next state
      else if token == fdt_nop
      then next (wrapping_add offset 4) state
      else if token == fdt_begin_node
      then attempt (node_at_offset fdt offset) >>= visit_child next state
      else ok state

  unfoldable pub child_loop : ℕ → ℕ → ℕ → S → Run S
  child_loop zero end_offset offset state = out_of_fuel
  child_loop (suc fuel) end_offset offset state =
      if leb end_offset offset
      then ok state
      else child_step (child_loop fuel end_offset) offset state (read_token fdt offset)

  abbrev pub children_from : ℕ → S → Option ℕ → Run S
  children_from end_offset state none = ok state
  children_from end_offset state (some offset) =
      child_loop (length fdt.structure + 1) end_offset offset state

  unfoldable pub for_each_child : FdtNode → S → Run S
  for_each_child parent state =
      attempt (after_begin_node fdt parent.begin_offset) >>= children_from parent.end_offset state
