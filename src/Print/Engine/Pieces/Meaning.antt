-- ===== src/Print/Engine/Pieces/Meaning.antt =====
-- src/print.rs: every format string has a meaning, and what is printed when arguments are missing.
use rustfirmware.Base.{
  ℕ, zero, suc, ◌+◌, ◌≤◌, ◌≡◌, ◌≢◌, refl, ap, sym, subst, ◌∙◌, inl, inr, List, [], ◌∷◌, ◌++◌,
  append_assoc, length, length-append, ◌==◌, ok, err, panic, out_of_fuel, Bool-cases, ==→eq, ◌⊎◌,
  arith,
}
use rustfirmware.Base.Text.{codes}
use rustfirmware.Print.Argument.{AllInRange, Output, FormatArgument}
use rustfirmware.Print.Spec.{print_argument}
use rustfirmware.Print.Engine.{◌>>◌, missing_arg, print}
use rustfirmware.Print.Engine.Pieces.{
  Piece, plain, open_brace, close_brace, hole, Ending, complete, unclosed, stray, StartsWithout,
  NoneIs, IsPiece, AllPieces, IsEnding, piece_text, ending_text, format_text, render,
}
use rustfirmware.Print.Engine.Total.{print-total}
use rustfirmware.Print.Engine.Pieces.Rendered.{print-render}

-- The text in which a placeholder is sought.
data Closed (bytes : List ℕ) : Type 0 where
  no_brace : NoneIs b'}' bytes → Closed bytes
  brace_after : (spec rest : List ℕ) → NoneIs b'}' spec → bytes ≡ spec ++ b'}' ∷ rest → Closed bytes

Closed-cons : (c : ℕ) (bytes : List ℕ) → c ≢ b'}' → Closed bytes → Closed (c ∷ bytes)
Closed-cons c bytes h (no_brace k) = no_brace (h, k)
Closed-cons c bytes h (brace_after spec rest k e) =
    brace_after (c ∷ spec) rest (h, k) (ap (◌∷◌ c) e)

same_or_not : (x y : ℕ) → (x ≡ y) ⊎ (x ≢ y)
same_or_not x y = elim (Bool-cases (x == y)) [
  | inl e ↦ inl (==→eq x y e)
  | inr h ↦ inr λ (e : x ≡ y). ground arith
]

find_Closed : (bytes : List ℕ) → Closed bytes
find_Closed [] = no_brace tt
find_Closed (c ∷ bytes) = elim (same_or_not c b'}') [
  | inl e ↦ brace_after [] bytes tt (ap (λ (x : ℕ). x ∷ bytes) e)
  | inr h ↦ Closed-cons c bytes h (find_Closed bytes)
]

StartsWithout-prefix :
    (spec rest bytes : List ℕ)
    → bytes ≡ spec ++ b'}' ∷ rest
    → StartsWithout b'{' bytes
    → StartsWithout b'{' spec
StartsWithout-prefix [] rest bytes e h = tt
StartsWithout-prefix (c ∷ spec) rest bytes e h = rw e at h

-- A text with its pieces and its ending.
record Meaning (text : List ℕ) : Type 0 where
  pieces : List Piece
  ending : Ending
  pieces_fit : AllPieces pieces
  ending_fits : IsEnding ending
  same : format_text pieces ending ≡ text

Meaning-cons :
    (piece : Piece) (text : List ℕ)
    → IsPiece piece
    → Meaning text
    → Meaning (piece_text piece ++ text)
Meaning-cons piece text h m = record {
  pieces = piece ∷ m.pieces;
  ending = m.ending;
  pieces_fit = (h, m.pieces_fit);
  ending_fits = m.ending_fits;
  same = ap (λ (t : List ℕ). piece_text piece ++ t) m.same;
}

Meaning-end : (ending : Ending) → IsEnding ending → Meaning (ending_text ending)
Meaning-end ending h = record {
  pieces = [];
  ending = ending;
  pieces_fit = tt;
  ending_fits = h;
  same = refl;
}

module _ (fuel : ℕ) (shorter : (text : List ℕ) → length text ≤ fuel → Meaning text) where
  Meaning-hole :
      (bytes : List ℕ)
      → StartsWithout b'{' bytes
      → length bytes ≤ fuel
      → Closed bytes
      → Meaning (b'{' ∷ bytes)
  Meaning-hole bytes h small (no_brace k) = Meaning-end (unclosed bytes) (h, k)
  Meaning-hole bytes h small (brace_after spec rest k e) =
      let m =
        Meaning-cons (hole spec) rest (StartsWithout-prefix spec rest bytes e h, k)
          (shorter rest (omega (arith, ap length e, length-append spec (b'}' ∷ rest)))) in
      subst (λ (t : List ℕ). Meaning (b'{' ∷ t)) (append_assoc spec (b'}' ∷ []) rest ∙ sym e) m

  Meaning-open : (bytes : List ℕ) → length bytes ≤ fuel → Meaning (b'{' ∷ bytes)
  Meaning-open [] small = Meaning-hole [] tt small (no_brace tt)
  Meaning-open (d ∷ bytes) small = elim (same_or_not d b'{') [
    | inl e ↦
        subst (λ (x : ℕ). Meaning (b'{' ∷ x ∷ bytes)) (sym e)
          (Meaning-cons open_brace bytes tt (shorter bytes (omega arith)))
    | inr h ↦ Meaning-hole (d ∷ bytes) h small (find_Closed (d ∷ bytes))
  ]

  Meaning-close : (bytes : List ℕ) → length bytes ≤ fuel → Meaning (b'}' ∷ bytes)
  Meaning-close [] small = Meaning-end (stray []) tt
  Meaning-close (d ∷ bytes) small = elim (same_or_not d b'}') [
    | inl e ↦
        subst (λ (x : ℕ). Meaning (b'}' ∷ x ∷ bytes)) (sym e)
          (Meaning-cons close_brace bytes tt (shorter bytes (omega arith)))
    | inr h ↦ Meaning-end (stray (d ∷ bytes)) h
  ]

  Meaning-step : (text : List ℕ) → length text ≤ fuel + 1 → Meaning text
  Meaning-step [] small = Meaning-end complete tt
  Meaning-step (c ∷ bytes) small = elim (same_or_not c b'{') [
    | inl e ↦ subst (λ (x : ℕ). Meaning (x ∷ bytes)) (sym e) (Meaning-open bytes (omega arith))
    | inr h ↦ elim (same_or_not c b'}') [
      | inl e ↦ subst (λ (x : ℕ). Meaning (x ∷ bytes)) (sym e) (Meaning-close bytes (omega arith))
      | inr k ↦ Meaning-cons (plain c) bytes (h, k) (shorter bytes (omega arith))
    ]
  ]

any_Meaning : (fuel : ℕ) (text : List ℕ) → length text ≤ fuel → Meaning text
any_Meaning zero [] h = Meaning-end complete tt
any_Meaning zero (c ∷ text) h = absurd (omega arith)
any_Meaning (suc fuel) text h = Meaning-step fuel (any_Meaning fuel) text (omega arith)

-- Every format string consists of pieces and an ending, and with arguments in range it is printed
-- to its end, as they say: the loop runs out of neither fuel nor range.
pub print-Meaning :
    (format : List ℕ) (arguments : List FormatArgument)
    → AllInRange arguments
    → (pieces : List Piece) × (ending : Ending) × AllPieces pieces
      × IsEnding ending
      × (format_text pieces ending ≡ format)
      × (out : List ℕ) × (print format arguments ≡ ok out)
      × (render [] pieces ending arguments ≡ ok out)
print-Meaning format arguments ranges =
    let m = any_Meaning (length format) format (omega arith) in
    let (out, e) = print-total format arguments ranges in
    (
      m.pieces,
      m.ending,
      m.pieces_fit,
      m.ending_fits,
      m.same,
      out,
      e,
      sym (print-render m.pieces m.ending arguments m.pieces_fit m.ending_fits)
          ∙ ap (λ (t : List ℕ). print t arguments) m.same
          ∙ e,
    )

-- The number of arguments that the pieces take.
abbrev pub holes : List Piece → ℕ
holes [] = 0
holes (plain byte ∷ pieces) = holes pieces
holes (open_brace ∷ pieces) = holes pieces
holes (close_brace ∷ pieces) = holes pieces
holes (hole spec ∷ pieces) = suc (holes pieces)

then_assoc : (a b c : Output) → (a >> (b >> c)) ≡ ((a >> b) >> c)
then_assoc (ok a) (ok b) (ok c) = ap ok (sym (append_assoc a b c))
then_assoc (ok a) (ok b) (err e) = refl
then_assoc (ok a) (ok b) panic = refl
then_assoc (ok a) (ok b) out_of_fuel = refl
then_assoc (ok a) (err e) c = refl
then_assoc (ok a) panic c = refl
then_assoc (ok a) out_of_fuel c = refl
then_assoc (err e) b c = refl
then_assoc panic b c = refl
then_assoc out_of_fuel b c = refl

then_inside :
    (pending : List ℕ) (text before after more : Output)
    → after ≡ (before >> more)
    → (ok pending >> (text >> after)) ≡ ((ok pending >> (text >> before)) >> more)
then_inside pending text before after more e =
    ap (λ (t : Output). ok pending >> (text >> t)) e
    ∙ ap (λ (t : Output). ok pending >> t) (then_assoc text before more)
    ∙ then_assoc (ok pending) (text >> before) more

render-missing :
    (pending : List ℕ) (pieces others : List Piece) (ending : Ending) (spec : List ℕ)
    (arguments : List FormatArgument)
    → holes pieces ≡ length arguments
    → render pending (pieces ++ hole spec ∷ others) ending arguments
      ≡ (render pending pieces complete arguments >> ok missing_arg)
render-missing pending [] others ending spec [] h = refl
render-missing pending [] others ending spec (a ∷ arguments) h = absurd (omega arith)
render-missing pending (plain byte ∷ pieces) others ending spec arguments h =
    render-missing (pending ++ byte ∷ []) pieces others ending spec arguments h
render-missing pending (open_brace ∷ pieces) others ending spec arguments h =
    then_inside pending (ok (codes "{")) (render [] pieces complete arguments) _ (ok missing_arg)
      (render-missing [] pieces others ending spec arguments h)
render-missing pending (close_brace ∷ pieces) others ending spec arguments h =
    then_inside pending (ok (codes "}")) (render [] pieces complete arguments) _ (ok missing_arg)
      (render-missing [] pieces others ending spec arguments h)
render-missing pending (hole s ∷ pieces) others ending spec [] h = absurd (omega arith)
render-missing pending (hole s ∷ pieces) others ending spec (a ∷ arguments) h =
    then_inside pending (print_argument a s) (render [] pieces complete arguments) _
      (ok missing_arg) (render-missing [] pieces others ending spec arguments (omega arith))

AllPieces-before : (pieces others : List Piece) → AllPieces (pieces ++ others) → AllPieces pieces
AllPieces-before [] others h = tt
AllPieces-before (piece ∷ pieces) others (h, hs) = (h, AllPieces-before pieces others hs)

-- A format string with more placeholders than there are arguments prints what stands before the
-- first placeholder without an argument, as if the string ended there, then the error, and
-- nothing of the rest.
pub print-missing :
    (pieces others : List Piece) (ending : Ending) (spec : List ℕ) (arguments : List FormatArgument)
    → AllPieces (pieces ++ hole spec ∷ others)
    → IsEnding ending
    → holes pieces ≡ length arguments
    → print (format_text (pieces ++ hole spec ∷ others) ending) arguments
      ≡ (print (format_text pieces complete) arguments >> ok missing_arg)
print-missing pieces others ending spec arguments ps e h =
    print-render (pieces ++ hole spec ∷ others) ending arguments ps e
    ∙ render-missing [] pieces others ending spec arguments h
    ∙ ap (λ (t : Output). t >> ok missing_arg)
        (sym (
          print-render pieces complete arguments (AllPieces-before pieces (hole spec ∷ others) ps)
            tt))
