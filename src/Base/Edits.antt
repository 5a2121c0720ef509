-- ===== src/Base/Edits.antt =====
-- What the in-place loops do to a slice that is split into its used part and its spare room.
use Prim.Native.Nat.{ℕ, zero, suc, ◌+◌, ◌-◌, ◌≤◌, ◌<◌}
use mathlib.Core.Path.{◌≡◌, refl, ap, ◌∙◌}
use mathlib.Core.Bool.{◌&&◌}
use mathlib.Core.List.{List, ◌∷◌, ◌++◌}
use native.Mathlib.Omega.{arith}
use native.Mathlib.Decide.{dec_lt}
use rustfirmware.Base.Tests.{ltb, leb, lt→ltb, if◌then◌else◌}
use rustfirmware.Base.Lists.{
  length, get_elem?, set, drop, length-append, get_elem?-set, get_elem?-append, get_elem?-cons,
  get_elem?-drop, get_elem?_ext, get_elem?-some, length-set,
}
use rustfirmware.Base.Outcomes.{ok}
use rustfirmware.Base.Slices.{
  write, shift_right, shift_left, write_all, shift_right_lem, shift_left_lem, write_all_lem,
}

module _ {A : Type 0} where
  -- The gap opened and filled, index by index.
  replaced_at :
      (pre post spare p ys zs : List A) (d : A) (n growth j : ℕ)
      → length p ≡ growth + 1
      → length (pre ++ d ∷ post) ≡ length pre + 1 + n
      → get_elem? ys j ≡ (
          if leb (length pre + 1 + growth) j && ltb j (length pre + 1 + n + growth)
          then get_elem? ((pre ++ d ∷ post) ++ spare) (j - growth)
          else get_elem? ((pre ++ d ∷ post) ++ spare) j)
      → get_elem? zs j ≡ (
          if leb (length pre) j && ltb j (length pre + length p)
          then get_elem? p (j - length pre)
          else get_elem? ys j)
      → get_elem? zs j ≡ get_elem? ((pre ++ (p ++ post)) ++ drop growth spare) j
  replaced_at pre post spare p ys zs d n growth j one whole entry written =
      elim (dec_lt j (length (pre ++ (p ++ post)))) [
        | no past ↦ ground (
          arith,
          sizes,
          get_elem?-append (pre ++ d ∷ post) spare j,
          get_elem?-append (pre ++ (p ++ post)) (drop growth spare) j,
          get_elem?-drop growth spare (j - length (pre ++ (p ++ post))),
        )
        | yes inside ↦ elim (dec_lt j (length pre + length p)) [
          | yes early ↦ ground (
            arith,
            sizes,
            get_elem?-append (pre ++ d ∷ post) spare j,
            get_elem?-append pre (d ∷ post) j,
            get_elem?-append (pre ++ (p ++ post)) (drop growth spare) j,
            get_elem?-append pre (p ++ post) j,
            get_elem?-append p post (j - length pre),
          )
          | no late ↦ ground (
            arith,
            sizes,
            get_elem?-append (pre ++ d ∷ post) spare (j - growth),
            get_elem?-append pre (d ∷ post) (j - growth),
            get_elem?-cons d post (j - growth - length pre),
            get_elem?-append (pre ++ (p ++ post)) (drop growth spare) j,
            get_elem?-append pre (p ++ post) j,
            get_elem?-append p post (j - length pre),
          )
        ]
      ]
    where
      sizes :
          (length (pre ++ (p ++ post)) ≡ length pre + length p + length post) × (n ≡ length post)
      sizes =
          omega (
            arith,
            length-append pre (d ∷ post),
            length-append pre (p ++ post),
            length-append p post,
          )

module _ {E A : Type 0} where
  -- An insertion takes one entry of the spare room.
  pub insert_lem :
      (pre post ss : List A) (s d : A)
      → (ys : List A) × (shift_right {E = E} 1
            (length (pre ++ post) - length pre)
            (length pre)
            ((pre ++ post) ++ s ∷ ss)
          ≡ ok ys)
        × (write {E = E} ys (length pre) d ≡ ok ((pre ++ d ∷ post) ++ ss))
  insert_lem pre post ss s d =
      let n : ℕ = length (pre ++ post) - length pre in
      let low : ℕ = length pre in
      let xs = (pre ++ post) ++ s ∷ ss in
      let whole = length-append pre post in
      let (ys, runs, size, entry) =
        shift_right_lem {E = E} 1 n low xs (omega arith)
          (omega (arith, whole, length-append (pre ++ post) (s ∷ ss))) in
      let room : low < length ys =
        omega (arith, whole, size, length-append (pre ++ post) (s ∷ ss)) in
      (
        ys,
        runs,
        rw (lt→ltb low (length ys) room) (
            ap ok (
              get_elem?_ext (set ys low d) ((pre ++ d ∷ post) ++ ss) λ j. ground (
                arith,
                whole,
                entry j,
                get_elem?-set ys low j d room,
                get_elem?-append (pre ++ post) (s ∷ ss) j,
                get_elem?-append (pre ++ post) (s ∷ ss) (j - 1),
                get_elem?-append pre post j,
                get_elem?-append pre post (j - 1),
                get_elem?-cons s ss (j - length (pre ++ post)),
                get_elem?-append (pre ++ d ∷ post) ss j,
                get_elem?-append pre (d ∷ post) j,
                get_elem?-cons d post (j - low),
                length-append pre (d ∷ post),
              ))),
      )

  -- The gap that a replacement by `growth + 1` entries needs; one entry needs none.
  open_gap :
      (growth n low : ℕ) (xs : List A)
      → low + n + growth ≤ length xs
      → (ys : List A) × ((if ltb 0 growth then shift_right {E = E} growth n low xs else ok xs)
          ≡ ok ys)
        × (length ys ≡ length xs)
        × ((j : ℕ)
            → get_elem? ys j ≡ (
                if leb (low + growth) j && ltb j (low + n + growth)
                then get_elem? xs (j - growth)
                else get_elem? xs j))
  open_gap zero n low xs h =
      (xs, refl, refl, λ j. let e : j - 0 ≡ j = omega arith in rw e (ground arith))
  open_gap (suc growth) n low xs h =
      rw (lt→ltb 0 (suc growth) (omega arith))
        (shift_right_lem {E = E} (suc growth) n low xs (omega arith) h)

  -- Replacing one entry by several takes the difference from the spare room.
  pub replace_lem :
      (pre post spare p : List A) (d : A)
      → 0 < length p
      → length p - 1 ≤ length spare
      → let xs = (pre ++ d ∷ post) ++ spare in
        (ys : List A) × ((if ltb 1 (length p)
            then shift_right {E = E}
                (length p - 1)
                (length (pre ++ d ∷ post) - (length pre + 1))
                (length pre + 1)
                xs
            else ok xs)
          ≡ ok ys)
        × (write_all {E = E} (length pre) p ys
            ≡ ok ((pre ++ (p ++ post)) ++ drop (length p - 1) spare))
  replace_lem pre post spare p d some_entry room =
      let low : ℕ = length pre in
      let growth : ℕ = length p - 1 in
      let n : ℕ = length (pre ++ d ∷ post) - (length pre + 1) in
      let xs = (pre ++ d ∷ post) ++ spare in
      let whole = length-append pre (d ∷ post) in
      let total = length-append (pre ++ d ∷ post) spare in
      let (ys, runs, size, entry) = open_gap growth n (low + 1) xs (omega (arith, whole, total)) in
      let (zs, writes, _, written) =
        write_all_lem {E = E} low p ys (omega (arith, whole, total, size)) in
      let several : ltb 1 (length p) ≡ ltb 0 growth = ground arith in
      (
        ys,
        rw several runs,
        writes
            ∙ ap ok (
                get_elem?_ext zs ((pre ++ (p ++ post)) ++ drop growth spare) λ j.
                  replaced_at pre post spare p ys zs d n growth j (omega arith)
                    (omega (arith, whole)) (entry j) (written j)),
      )

  -- Two entries become one, and the freed place joins the spare room.
  pub merge_lem :
      (pre post spare : List A) (d e m : A)
      → let xs = (pre ++ d ∷ e ∷ post) ++ spare in
        (ys : List A) × (freed : A) × (write {E = E} xs (length pre) m ≡ ok ys)
        × (shift_left {E = E} (length (pre ++ d ∷ e ∷ post) - (length pre + 2)) (length pre + 2) ys
            ≡ ok ((pre ++ m ∷ post) ++ freed ∷ spare))
  merge_lem pre post spare d e m =
      let low : ℕ = length pre in
      let n : ℕ = length (pre ++ d ∷ e ∷ post) - (length pre + 2) in
      let xs = (pre ++ d ∷ e ∷ post) ++ spare in
      let whole = length-append pre (d ∷ e ∷ post) in
      let total = length-append (pre ++ d ∷ e ∷ post) spare in
      let room : low < length xs = omega (arith, whole, total) in
      let ys = set xs low m in
      let (zs, runs, size, entry) =
        shift_left_lem {E = E} n (low + 2) ys (omega arith)
          (omega (arith, whole, total, length-set xs low m)) in
      let (freed, at_end) =
        get_elem?-some zs (low + 1 + n) (omega (arith, whole, total, size, length-set xs low m)) in
      (
        ys,
        freed,
        rw (lt→ltb low (length xs) room),
        runs
            ∙ ap ok (
                get_elem?_ext zs ((pre ++ m ∷ post) ++ freed ∷ spare) λ j. ground (
                  arith,
                  whole,
                  at_end,
                  entry j,
                  get_elem?-set xs low j m room,
                  get_elem?-set xs low (j + 1) m room,
                  get_elem?-append (pre ++ d ∷ e ∷ post) spare j,
                  get_elem?-append (pre ++ d ∷ e ∷ post) spare (j + 1),
                  get_elem?-append pre (d ∷ e ∷ post) j,
                  get_elem?-append pre (d ∷ e ∷ post) (j + 1),
                  get_elem?-cons d (e ∷ post) (j + 1 - low),
                  get_elem?-cons e post (j - low),
                  get_elem?-append (pre ++ m ∷ post) (freed ∷ spare) j,
                  get_elem?-append pre (m ∷ post) j,
                  get_elem?-cons m post (j - low),
                  get_elem?-cons freed spare (j - length (pre ++ m ∷ post)),
                  length-append pre (m ∷ post),
                )),
      )
