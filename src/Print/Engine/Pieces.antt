-- ===== src/Print/Engine/Pieces.antt =====
-- src/print.rs: what a format string means. It is read as a list of pieces and an ending, and the
-- printer renders the pieces in order.
pub mod Position
pub mod Rendered
pub mod Meaning
use rustfirmware.Base.{
  ℕ, zero, suc, ◌+◌, ◌-◌, ◌≤◌, ◌<◌, ◌≡◌, ◌≢◌, refl, ap, sym, subst, ◌∙◌, inl, inr, Bool, true,
  false, List, [], ◌∷◌, ◌++◌, append_assoc, append-nil, Option, none, some, length, take, drop,
  length-append, get_elem?, leb, ltb, ◌==◌, if◌then◌else◌, Outcome, ok, panic, ◌>>=◌, arith,
}
use rustfirmware.Base.Text.{codes}
use rustfirmware.Print.Argument.{Output, FormatArgument}
use rustfirmware.Print.Spec.{print_argument, format_error}
use rustfirmware.Print.Engine.{
  ◌>>◌, missing_arg, slice, flush_literal, closing_brace_from, find_closing_brace, is_byte, Loop,
  print_found, placeholder, opening_brace, closing_brace, print_byte, print_loop, print,
}

pub data Piece : Type 0 where
  plain : ℕ → Piece
  open_brace close_brace : Piece
  hole : List ℕ → Piece

-- How a format string ends: with its pieces, in a placeholder that is not closed, or with a closing
-- brace that stands alone, and whatever follows it.
pub data Ending : Type 0 where
  complete : Ending
  unclosed stray : List ℕ → Ending

-- The codes do not start with the one given.
abbrev pub StartsWithout : ℕ → List ℕ → Type 0
StartsWithout code [] = Unit {0}
StartsWithout code (c ∷ codes) = c ≢ code

abbrev pub NoneIs : ℕ → List ℕ → Type 0
NoneIs code [] = Unit {0}
NoneIs code (c ∷ codes) = (c ≢ code) × NoneIs code codes

abbrev pub IsPiece : Piece → Type 0
IsPiece (plain byte) = (byte ≢ b'{') × (byte ≢ b'}')
IsPiece open_brace = Unit {0}
IsPiece close_brace = Unit {0}
IsPiece (hole spec) = StartsWithout b'{' spec × NoneIs b'}' spec

abbrev pub AllPieces : List Piece → Type 0
AllPieces [] = Unit {0}
AllPieces (piece ∷ pieces) = IsPiece piece × AllPieces pieces

abbrev pub IsEnding : Ending → Type 0
IsEnding complete = Unit {0}
IsEnding (unclosed spec) = StartsWithout b'{' spec × NoneIs b'}' spec
IsEnding (stray rest) = StartsWithout b'}' rest

abbrev pub piece_text : Piece → List ℕ
piece_text (plain byte) = byte ∷ []
piece_text open_brace = b'{' ∷ b'{' ∷ []
piece_text close_brace = b'}' ∷ b'}' ∷ []
piece_text (hole spec) = b'{' ∷ (spec ++ b'}' ∷ [])

abbrev pub ending_text : Ending → List ℕ
ending_text complete = []
ending_text (unclosed spec) = b'{' ∷ spec
ending_text (stray rest) = b'}' ∷ rest

abbrev pub format_text : List Piece → Ending → List ℕ
format_text [] ending = ending_text ending
format_text (piece ∷ pieces) ending = piece_text piece ++ format_text pieces ending

-- What is printed, with plain bytes that are still to be printed before it. A closing brace that
-- stands alone loses them.
abbrev pub render_end : List ℕ → Ending → Output
render_end pending complete = ok pending
render_end pending (unclosed spec) = ok (pending ++ format_error)
render_end pending (stray rest) = ok format_error

abbrev pub render : List ℕ → List Piece → Ending → List FormatArgument → Output
render pending [] ending arguments = render_end pending ending
render pending (plain byte ∷ pieces) ending arguments =
    render (pending ++ byte ∷ []) pieces ending arguments
render pending (open_brace ∷ pieces) ending arguments =
    ok pending >> (ok (codes "{") >> render [] pieces ending arguments)
render pending (close_brace ∷ pieces) ending arguments =
    ok pending >> (ok (codes "}") >> render [] pieces ending arguments)
render pending (hole spec ∷ pieces) ending [] = ok (pending ++ missing_arg)
render pending (hole spec ∷ pieces) ending (argument ∷ arguments) =
    ok pending >> (print_argument argument spec >> render [] pieces ending arguments)
