-- ===== src/Print/Engine/Pieces/Rendered.antt =====
-- src/print.rs: the loop renders the pieces of a format string in order.
use rustfirmware.Base.{
  ℕ, zero, suc, ◌+◌, ◌<◌, ◌≡◌, ◌≢◌, refl, ap, sym, ◌∙◌, List, [], ◌∷◌, ◌++◌, append_assoc, none,
  some, length, length-append, get_elem?, ok, arith,
}
use rustfirmware.Base.Text.{codes}
use rustfirmware.Print.Argument.{FormatArgument}
use rustfirmware.Print.Spec.{format_error}
use rustfirmware.Print.Engine.{
  ◌>>◌, closing_brace_from, find_closing_brace, Loop, print_found, placeholder, opening_brace,
  closing_brace, print_byte, print_loop, print,
}
use rustfirmware.Print.Engine.Pieces.{
  Piece, plain, open_brace, close_brace, hole, Ending, complete, unclosed, stray, StartsWithout,
  NoneIs, AllPieces, IsEnding, format_text, render,
}
use rustfirmware.Print.Engine.Pieces.Position.{
  At, At-byte, At-plain, At-skip, At-next, At-flush, At-drop, not_byte, slice-at, get_elem?-at,
  flush-at, closing_brace_from-none, closing_brace_from-some,
}

module _ (bytes : List ℕ) (arguments : List FormatArgument) where
  -- Two braces of a kind print one.
  opened_twice :
      (next : Loop) (pre pending rest : List ℕ) (literal_start index argument_index : ℕ)
      → At bytes pre pending (b'{' ∷ b'{' ∷ rest) literal_start index
      → print_byte bytes arguments next literal_start index argument_index (some b'{')
        ≡ ok pending >> (ok (codes "{") >> next (index + 2) (index + 2) argument_index)
  unfolding print_byte opening_brace
  opened_twice next pre pending rest literal_start index argument_index a =
      rw
        (
          At-flush bytes pre pending _ literal_start index a,
          At-next bytes pre pending _ b'{' literal_start index a,
        )
        refl

  closed_twice :
      (next : Loop) (pre pending rest : List ℕ) (literal_start index argument_index : ℕ)
      → At bytes pre pending (b'}' ∷ b'}' ∷ rest) literal_start index
      → print_byte bytes arguments next literal_start index argument_index (some b'}')
        ≡ ok pending >> (ok (codes "}") >> next (index + 2) (index + 2) argument_index)
  unfolding print_byte closing_brace
  closed_twice next pre pending rest literal_start index argument_index a =
      rw
        (
          At-flush bytes pre pending _ literal_start index a,
          At-next bytes pre pending _ b'}' literal_start index a,
        )
        refl

  closed_alone :
      (next : Loop) (pre pending rest : List ℕ) (literal_start index argument_index : ℕ)
      → At bytes pre pending (b'}' ∷ rest) literal_start index
      → StartsWithout b'}' rest
      → print_byte bytes arguments next literal_start index argument_index (some b'}')
        ≡ ok format_error
  unfolding print_byte closing_brace
  closed_alone next pre pending rest literal_start index argument_index a h =
      rw (At-next bytes pre pending rest b'}' literal_start index a, not_byte bytes b'}' rest h)
        refl

  -- A brace that does not stand twice begins a placeholder.
  opened_once :
      (next : Loop) (pre pending rest : List ℕ) (literal_start index argument_index : ℕ)
      → At bytes pre pending (b'{' ∷ rest) literal_start index
      → StartsWithout b'{' rest
      → print_byte bytes arguments next literal_start index argument_index (some b'{')
        ≡ ok pending
          >> placeholder bytes arguments next index argument_index
              (closing_brace_from rest (index + 1))
  unfolding print_byte opening_brace find_closing_brace
  opened_once next pre pending rest literal_start index argument_index a h =
      rw
        (
          At-flush bytes pre pending _ literal_start index a,
          At-next bytes pre pending rest b'{' literal_start index a,
          not_byte bytes b'{' rest h,
          At-drop bytes pre pending rest b'{' literal_start index a,
        )
        refl

  -- The placeholder that is closed.
  filled :
      (next : Loop) (pre pending spec rest : List ℕ) (literal_start index argument_index : ℕ)
      → At bytes pre pending (b'{' ∷ (spec ++ b'}' ∷ rest)) literal_start index
      → placeholder bytes arguments next index argument_index (some (index + 1 + length spec))
        ≡ print_found next
            (index + 1 + length spec)
            argument_index
            spec
            (get_elem? arguments argument_index)
  unfolding placeholder
  filled next pre pending spec rest literal_start index argument_index a =
      let b =
        At-skip bytes pre pending (b'{' ∷ []) (spec ++ b'}' ∷ rest) literal_start index (index + 1)
          a (omega arith) in
      rw
        (slice-at bytes (pre ++ (pending ++ b'{' ∷ [])) spec (b'}' ∷ rest) (index + 1)
          (index + 1 + length spec) b.whole b.start (omega (arith, b.start)))
        refl

  StartsWithout-append :
      (spec rest : List ℕ) → StartsWithout b'{' spec → StartsWithout b'{' (spec ++ b'}' ∷ rest)
  StartsWithout-append [] rest h = omega arith
  StartsWithout-append (c ∷ spec) rest h = h

  -- The text of a placeholder, with the closing brace and what follows it.
  At-hole :
      (pre pending spec rest : List ℕ) (literal_start index : ℕ)
      → At bytes pre pending (b'{' ∷ ((spec ++ b'}' ∷ []) ++ rest)) literal_start index
      → At bytes pre pending (b'{' ∷ (spec ++ b'}' ∷ rest)) literal_start index
  At-hole pre pending spec rest literal_start index a = record {
    whole =
        a.whole
        ∙ ap (λ (t : List ℕ). pre ++ (pending ++ b'{' ∷ t)) (append_assoc spec (b'}' ∷ []) rest);
    start = a.start;
    here = a.here;
  }

  opened_hole :
      (next : Loop) (pre pending spec rest : List ℕ) (literal_start index argument_index : ℕ)
      → At bytes pre pending (b'{' ∷ (spec ++ b'}' ∷ rest)) literal_start index
      → StartsWithout b'{' spec
      → NoneIs b'}' spec
      → print_byte bytes arguments next literal_start index argument_index (some b'{')
        ≡ ok pending
          >> print_found next
              (index + 1 + length spec)
              argument_index
              spec
              (get_elem? arguments argument_index)
  opened_hole next pre pending spec rest literal_start index argument_index a h k =
      opened_once next pre pending (spec ++ b'}' ∷ rest) literal_start index argument_index a
        (StartsWithout-append spec rest h)
      ∙ rw
          (
            closing_brace_from-some spec rest (index + 1) k,
            filled next pre pending spec rest literal_start index argument_index a,
          )
          refl

  -- The argument of the placeholder, and the rest of the loop after it.
  filled_hole :
      (next : Loop) (pieces : List Piece) (ending : Ending) (pending spec : List ℕ)
      (used left : List FormatArgument) (spec_end argument_index : ℕ)
      → arguments ≡ used ++ left
      → argument_index ≡ length used
      → ((used' : List FormatArgument)
          → argument_index + 1 ≡ length used'
          → (left' : List FormatArgument) → arguments ≡ used' ++ left'
          → next (spec_end + 1) (spec_end + 1) (argument_index + 1) ≡ render [] pieces ending left')
      → (ok pending
          >> print_found next spec_end argument_index spec (get_elem? arguments argument_index))
        ≡ render pending (hole spec ∷ pieces) ending left
  unfolding print_found
  filled_hole next pieces ending pending spec used [] spec_end argument_index us c rest =
      rw (us, c, get_elem?-at used []) refl
  filled_hole next pieces ending pending spec used (argument ∷ left) spec_end argument_index us c
        rest =
      let found : get_elem? arguments argument_index ≡ some argument =
        rw (us, c) (get_elem?-at used (argument ∷ left)) in
      rw
        (
          found,
          rest (used ++ argument ∷ []) (omega (arith, c, length-append used (argument ∷ []))) left
              (us ∙ sym (append_assoc used (argument ∷ []) left)),
        )
        refl

  flush_end :
      (next : Loop) (pre pending : List ℕ) (literal_start index argument_index : ℕ)
      → At bytes pre pending [] literal_start index
      → print_byte bytes arguments next literal_start index argument_index none ≡ ok pending
  unfolding print_byte
  flush_end next pre pending literal_start index argument_index a =
      let size : length bytes ≡ length pre + length pending =
        ap length a.whole
        ∙ omega (arith, length-append pre (pending ++ []), length-append pending []) in
      flush-at bytes pre pending [] literal_start (length bytes) a.whole a.start size

  not_closed :
      (next : Loop) (pending : List ℕ) (index argument_index : ℕ)
      → (ok pending >> placeholder bytes arguments next index argument_index none)
        ≡ ok (pending ++ format_error)
  unfolding placeholder
  not_closed next pending index argument_index = refl

  step_plain :
      (next : Loop) (byte literal_start index argument_index : ℕ)
      → byte ≢ b'{'
      → byte ≢ b'}'
      → print_byte bytes arguments next literal_start index argument_index (some byte)
        ≡ next literal_start (index + 1) argument_index
  unfolding print_byte
  step_plain next byte literal_start index argument_index h k = ground (arith, h, k)

  -- The loop before the pieces that are left, with as many arguments used as placeholders printed.
  print_loop-render :
      (fuel : ℕ) (pieces : List Piece) (ending : Ending) (pre pending : List ℕ)
      (used left : List FormatArgument) (literal_start index argument_index : ℕ)
      → AllPieces pieces
      → IsEnding ending
      → At bytes pre pending (format_text pieces ending) literal_start index
      → arguments ≡ used ++ left
      → argument_index ≡ length used
      → length (format_text pieces ending) < fuel
      → print_loop bytes arguments fuel literal_start index argument_index
        ≡ render pending pieces ending left
  unfolding print_loop
  print_loop-render zero pieces ending pre pending used left l i n ps e a us c enough =
      absurd (omega arith)
  print_loop-render (suc fuel) [] complete pre pending used left l i n ps e a us c enough =
      rw (At-byte bytes pre pending [] l i a)
        (flush_end (print_loop bytes arguments fuel) pre pending l i n a)
  print_loop-render (suc fuel) [] (unclosed spec) pre pending used left l i n ps (h, k) a us c
        enough =
      rw
        (
          At-byte bytes pre pending (b'{' ∷ spec) l i a,
          opened_once (print_loop bytes arguments fuel) pre pending spec l i n a h,
          closing_brace_from-none spec (i + 1) k,
        )
        (not_closed (print_loop bytes arguments fuel) pending i n)
  print_loop-render (suc fuel) [] (stray rest) pre pending used left l i n ps e a us c enough =
      rw (At-byte bytes pre pending (b'}' ∷ rest) l i a)
        (closed_alone (print_loop bytes arguments fuel) pre pending rest l i n a e)
  print_loop-render (suc fuel) (plain byte ∷ pieces) ending pre pending used left l i n
        ((lower, upper), ps) e a us c enough =
      let rest = format_text pieces ending in
      rw
        (
          At-byte bytes pre pending (byte ∷ rest) l i a,
          step_plain (print_loop bytes arguments fuel) byte l i n lower upper,
        )
        (print_loop-render fuel pieces ending pre (pending ++ byte ∷ []) used left l (i + 1) n ps e
          (At-plain bytes pre pending rest byte l i a) us c (omega arith))
  print_loop-render (suc fuel) (open_brace ∷ pieces) ending pre pending used left l i n (_, ps) e a
        us c enough =
      let rest = format_text pieces ending in
      rw
        (
          At-byte bytes pre pending (b'{' ∷ b'{' ∷ rest) l i a,
          opened_twice (print_loop bytes arguments fuel) pre pending rest l i n a,
          print_loop-render fuel pieces ending (pre ++ (pending ++ b'{' ∷ b'{' ∷ [])) [] used left
              (i + 2) (i + 2) n ps e
              (At-skip bytes pre pending (b'{' ∷ b'{' ∷ []) rest l i (i + 2) a (omega arith)) us c
              (omega arith),
        )
        refl
  print_loop-render (suc fuel) (close_brace ∷ pieces) ending pre pending used left l i n (_, ps) e a
        us c enough =
      let rest = format_text pieces ending in
      rw
        (
          At-byte bytes pre pending (b'}' ∷ b'}' ∷ rest) l i a,
          closed_twice (print_loop bytes arguments fuel) pre pending rest l i n a,
          print_loop-render fuel pieces ending (pre ++ (pending ++ b'}' ∷ b'}' ∷ [])) [] used left
              (i + 2) (i + 2) n ps e
              (At-skip bytes pre pending (b'}' ∷ b'}' ∷ []) rest l i (i + 2) a (omega arith)) us c
              (omega arith),
        )
        refl
  print_loop-render (suc fuel) (hole spec ∷ pieces) ending pre pending used left l i n ((h, k), ps)
        e a us c enough =
      let rest = format_text pieces ending in
      let b = At-hole pre pending spec rest l i a in
      let size = length-append (spec ++ b'}' ∷ []) rest in
      rw
        (
          At-byte bytes pre pending (b'{' ∷ (spec ++ b'}' ∷ rest)) l i b,
          opened_hole (print_loop bytes arguments fuel) pre pending spec rest l i n b h k,
        )
        (filled_hole (print_loop bytes arguments fuel) pieces ending pending spec used left
          (i + 1 + length spec) n us c
          λ next argument others us'.
            print_loop-render fuel pieces ending (pre ++ (pending ++ b'{' ∷ (spec ++ b'}' ∷ []))) []
              next others (i + 1 + length spec + 1) (i + 1 + length spec + 1) (n + 1) ps e
              (At-skip bytes pre pending (b'{' ∷ (spec ++ b'}' ∷ [])) rest l i
                (i + 1 + length spec + 1) a (omega (arith, length-append spec (b'}' ∷ []))))
              us' argument (omega (arith, size, length-append spec (b'}' ∷ []))))

-- A format string that is made of pieces prints them in order; where the arguments run out, where a
-- placeholder is not closed, and where a closing brace stands alone, it prints the error and
-- nothing more.
pub print-render :
    (pieces : List Piece) (ending : Ending) (arguments : List FormatArgument)
    → AllPieces pieces
    → IsEnding ending
    → print (format_text pieces ending) arguments ≡ render [] pieces ending arguments
unfolding print
print-render pieces ending arguments ps e =
    let text = format_text pieces ending in
    print_loop-render text arguments (length text + 1) pieces ending [] [] [] arguments 0 0 0 ps e
      (record { whole = refl; start = refl; here = refl }) refl refl (omega arith)
