-- ===== src/Base/Slices.antt =====
-- Slices that are written in place: bounds-checked reads and writes, and the loops that move a run
-- of entries up or down. Each loop's effect is given index by index.
use Prim.Native.Nat.{ℕ, zero, suc, ◌+◌, ◌-◌, ◌≤◌, ◌<◌}
use mathlib.Core.Path.{◌≡◌, refl, ◌∙◌}
use mathlib.Core.Bool.{◌&&◌}
use mathlib.Core.List.{List, [], ◌∷◌}
use mathlib.Core.Option.{Option}
use native.Mathlib.Omega.{arith}
use rustfirmware.Base.Tests.{ltb, leb, lt→ltb, if◌then◌else◌}
use rustfirmware.Base.Lists.{
  length, get_elem?, set, length-set, get_elem?-set, get_elem?-some, get_elem?-cons,
}
use rustfirmware.Base.Outcomes.{Outcome, ok, panic, ◌>>=◌, or_panic}

module _ {ℓ κ} {E : Type ℓ} {A : Type κ} where
  -- `slice[i]` and `slice[i] = v`.
  abbrev pub read : List A → ℕ → Outcome E A
  read xs i = or_panic (get_elem? xs i)

  abbrev pub write : List A → ℕ → A → Outcome E (List A)
  write xs i v = if ltb i (length xs) then ok (set xs i v) else panic

  -- `while cursor > low { slice[cursor + growth - 1] = slice[cursor - 1]; cursor -= 1; }`
  -- with `n` rounds left, so that `cursor` is `low + n`.
  unfoldable pub shift_right : ℕ → ℕ → ℕ → List A → Outcome E (List A)
  shift_right growth zero low xs = ok xs
  shift_right growth (suc n) low xs = do
    entry ← read xs (low + suc n - 1)
    xs' ← write xs (low + suc n + growth - 1) entry
    shift_right growth n low xs'

  -- `while cursor < end { slice[cursor - 1] = slice[cursor]; cursor += 1; }`
  -- with `n` rounds left, so that `end` is `cursor + n`.
  unfoldable pub shift_left : ℕ → ℕ → List A → Outcome E (List A)
  shift_left zero cursor xs = ok xs
  shift_left (suc n) cursor xs = do
    entry ← read xs cursor
    xs' ← write xs (cursor - 1) entry
    shift_left n (cursor + 1) xs'

  -- `for (offset, v) in values.enumerate() { slice[index + offset] = v; }`
  unfoldable pub write_all : ℕ → List A → List A → Outcome E (List A)
  write_all index [] xs = ok xs
  write_all index (v ∷ values) xs = do xs' ← write xs index v; write_all (index + 1) values xs'

module _ {E A : Type 0} where
  -- A loop that returns normally and keeps the slice's length, with its effect at each index.
  abbrev Moves : List A → Outcome E (List A) → (ℕ → Option A) → Type 0
  Moves xs run entry =
      (ys : List A) × (run ≡ ok ys) × (length ys ≡ length xs) × ((j : ℕ) → get_elem? ys j ≡ entry j)

  pub shift_right_lem :
      (growth n low : ℕ) (xs : List A)
      → 0 < growth
      → low + n + growth ≤ length xs
      → Moves xs (shift_right growth n low xs) λ j.
        if leb (low + growth) j && ltb j (low + n + growth)
        then get_elem? xs (j - growth)
        else get_elem? xs j
  unfolding shift_right
  shift_right_lem growth zero low xs g h = (xs, refl, refl, λ j. ground arith)
  shift_right_lem growth (suc n) low xs g h =
      let (a, found) = get_elem?-some xs (low + suc n - 1) (omega arith) in
      let to : ℕ = low + suc n + growth - 1 in
      let (ys, runs, size, entry) =
        shift_right_lem growth n low (set xs to a) g (omega (arith, length-set xs to a)) in
      (
        ys,
        rw (found, lt→ltb to (length xs) (omega arith)) runs,
        size ∙ length-set xs to a,
        λ j.
            ground
              (arith, found, entry j, get_elem?-set xs to j a, get_elem?-set xs to (j - growth) a),
      )

  pub shift_left_lem :
      (n cursor : ℕ) (xs : List A)
      → 0 < cursor
      → cursor + n ≤ length xs
      → Moves xs (shift_left n cursor xs) λ j.
        if leb (cursor - 1) j && ltb j (cursor - 1 + n)
        then get_elem? xs (j + 1)
        else get_elem? xs j
  unfolding shift_left
  shift_left_lem zero cursor xs g h = (xs, refl, refl, λ j. ground arith)
  shift_left_lem (suc n) cursor xs g h =
      let (a, found) = get_elem?-some xs cursor (omega arith) in
      let to : ℕ = cursor - 1 in
      let (ys, runs, size, entry) =
        shift_left_lem n (cursor + 1) (set xs to a) (omega arith)
          (omega (arith, length-set xs to a)) in
      (
        ys,
        rw (found, lt→ltb to (length xs) (omega arith)) runs,
        size ∙ length-set xs to a,
        λ j. ground (arith, found, entry j, get_elem?-set xs to j a, get_elem?-set xs to (j + 1) a),
      )

  pub write_all_lem :
      (index : ℕ) (values xs : List A)
      → index + length values ≤ length xs
      → Moves xs (write_all index values xs) λ j.
        if leb index j && ltb j (index + length values)
        then get_elem? values (j - index)
        else get_elem? xs j
  unfolding write_all
  write_all_lem index [] xs h = (xs, refl, refl, λ j. ground arith)
  write_all_lem index (v ∷ values) xs h =
      let (ys, runs, size, entry) =
        write_all_lem (index + 1) values (set xs index v) (omega (arith, length-set xs index v)) in
      (
        ys,
        rw (lt→ltb index (length xs) (omega arith)) runs,
        size ∙ length-set xs index v,
        λ j.
            ground
              (arith, entry j, get_elem?-set xs index j v, get_elem?-cons v values (j - index)),
      )
