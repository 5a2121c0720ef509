-- ===== src/Print/Engine/Total.antt =====
-- src/print.rs: the loop over the format string ends, and no slice of the string is out of range.
use rustfirmware.Base.{
  ℕ, zero, suc, ◌+◌, ◌-◌, ◌≤◌, ◌<◌, ◌≡◌, refl, inl, inr, true, List, [], ◌∷◌, ◌++◌, Option, none,
  some, length, take, drop, get_elem?, get_elem?-some, get_elem?-none, length-drop, ◌==◌, ok,
  Bool-cases, arith, subst,
}
use rustfirmware.Base.Maybe.{some_inj}
use rustfirmware.Base.Text.{codes}
use native.Mathlib.Decide.{dec_lt}
use rustfirmware.Print.Argument.{Output, FormatArgument, InRange, AllInRange}
use rustfirmware.Print.Spec.{format_error}
use rustfirmware.Print.Spec.Width.{print_argument-total}
use rustfirmware.Print.Engine.{
  ◌>>◌, missing_arg, slice, flush_literal, closing_brace_from, find_closing_brace, is_byte, Loop,
  print_found, placeholder, opening_brace, closing_brace, print_byte, print_loop, print,
}

-- The output is complete: no panic, and the fuel was enough.
abbrev pub Prints : Output → Type 0
Prints run = (out : List ℕ) × (run ≡ ok out)

Prints-then : (first then_ : Output) → Prints first → Prints then_ → Prints (first >> then_)
Prints-then first then_ (out, e) (more, e') = (out ++ more, rw (e, e') refl)

Prints-slice :
    (bytes : List ℕ) (start end : ℕ)
    → start ≤ end
    → end ≤ length bytes
    → Prints (slice bytes start end)
Prints-slice bytes start end h k = (take (end - start) (drop start bytes), ground arith)

Prints-flush :
    (bytes : List ℕ) (start end : ℕ) → end ≤ length bytes → Prints (flush_literal bytes start end)
unfolding flush_literal
Prints-flush bytes start end h = elim (dec_lt start end) [
  | yes some_bytes ↦
      let (out, e) = Prints-slice bytes start end (omega arith) h in (out, ground (arith, e))
  | no empty ↦ ([], ground arith)
]

closing_brace_from-within :
    (bytes : List ℕ) (index spec_end : ℕ)
    → closing_brace_from bytes index ≡ some spec_end
    → (index ≤ spec_end) × (spec_end < index + length bytes)
unfolding closing_brace_from
closing_brace_from-within [] index spec_end h = cc
closing_brace_from-within (byte ∷ bytes) index spec_end h = elim (Bool-cases (byte == b'}')) [
  | inl here ↦ ground (arith, here)
  | inr later ↦
      let (above, below) = closing_brace_from-within bytes (index + 1) spec_end (rw later at h) in
      (omega arith, omega arith)
]

find_closing_brace-within :
    (bytes : List ℕ) (start spec_end : ℕ)
    → find_closing_brace bytes start ≡ some spec_end
    → (start ≤ spec_end) × (spec_end < length bytes)
unfolding find_closing_brace
find_closing_brace-within bytes start spec_end h =
    let (above, below) = closing_brace_from-within (drop start bytes) start spec_end h in
    (above, omega (arith, length-drop start bytes))

is_byte-within :
    (bytes : List ℕ) (index byte : ℕ)
    → is_byte byte (get_elem? bytes index) ≡ true
    → index < length bytes
is_byte-within bytes index byte h = elim (dec_lt index (length bytes)) [
  | yes inside ↦ inside
  | no past ↦ absurd (ground (arith, h, get_elem?-none bytes index))
]

InRange-get :
    (arguments : List FormatArgument) (i : ℕ) (argument : FormatArgument)
    → AllInRange arguments
    → get_elem? arguments i ≡ some argument
    → InRange argument
InRange-get [] i argument h e = cc
InRange-get (a ∷ arguments) zero argument (h, _) e = subst InRange (some_inj e) h
InRange-get (a ∷ arguments) (suc i) argument (_, h) e = InRange-get arguments i argument h e

module _ (bytes : List ℕ) (arguments : List FormatArgument) (ranges : AllInRange arguments) where
  -- The rest of the loop, from any later index on.
  abbrev PrintsFrom : ℕ → Loop → Type 0
  PrintsFrom index next =
      (literal_start later argument_index : ℕ)
      → index < later
      → later ≤ length bytes
      → Prints (next literal_start later argument_index)

  Prints-found :
      (next : Loop) (index spec_end argument_index : ℕ) (spec : List ℕ) (o : Option FormatArgument)
      → PrintsFrom index next
      → index < spec_end
      → spec_end < length bytes
      → get_elem? arguments argument_index ≡ o
      → Prints (print_found next spec_end argument_index spec o)
  unfolding print_found
  Prints-found next index spec_end argument_index spec none p h k e = (missing_arg, refl)
  Prints-found next index spec_end argument_index spec (some argument) p h k e =
      Prints-then _ _
        (print_argument-total argument spec
          (InRange-get arguments argument_index argument ranges e))
        (p (spec_end + 1) (spec_end + 1) (argument_index + 1) (omega arith) (omega arith))

  Prints-placeholder :
      (next : Loop) (index argument_index : ℕ) (o : Option ℕ)
      → PrintsFrom index next
      → find_closing_brace bytes (index + 1) ≡ o
      → Prints (placeholder bytes arguments next index argument_index o)
  unfolding placeholder
  Prints-placeholder next index argument_index none p e = (format_error, refl)
  Prints-placeholder next index argument_index (some spec_end) p e =
      let (above, below) = find_closing_brace-within bytes (index + 1) spec_end e in
      let (spec, sliced) = Prints-slice bytes (index + 1) spec_end above (omega arith) in
      rw sliced (
        Prints-found next index spec_end argument_index spec (get_elem? arguments argument_index) p
          (omega arith) below refl)

  Prints-byte :
      (next : Loop) (literal_start index argument_index byte : ℕ)
      → PrintsFrom index next
      → index < length bytes
      → Prints (print_byte bytes arguments next literal_start index argument_index (some byte))
  unfolding print_byte opening_brace closing_brace
  Prints-byte next literal_start index argument_index byte p h =
      let flush = Prints-flush bytes literal_start index (omega arith) in
      let doubled = λ (c : ℕ) (text : List ℕ) (e : is_byte c (get_elem? bytes (index + 1)) ≡ true).
        Prints-then (ok text) _ (text, refl)
          (p (index + 2) (index + 2) argument_index (omega arith)
            (omega (arith, is_byte-within bytes (index + 1) c e))) in
      elim (Bool-cases (byte == b'{')) [
        | inl opens ↦ rw opens (
            Prints-then _ _ flush (elim (Bool-cases (is_byte b'{' (get_elem? bytes (index + 1)))) [
              | inl e ↦ rw e (doubled b'{' (codes "{") e)
              | inr e ↦ rw e (
                  Prints-placeholder next index argument_index
                    (find_closing_brace bytes (index + 1)) p refl)
            ]))
        | inr other ↦ elim (Bool-cases (byte == b'}')) [
          | inl closes ↦
              rw (other, closes)
                (elim (Bool-cases (is_byte b'}' (get_elem? bytes (index + 1)))) [
                  | inl e ↦ rw e (Prints-then _ _ flush (doubled b'}' (codes "}") e))
                  | inr e ↦ rw e (format_error, refl)
                ])
          | inr plain ↦
              rw (other, plain)
                (p literal_start (index + 1) argument_index (omega arith) (omega arith))
        ]
      ]

  at_end :
      (next : Loop) (literal_start index argument_index : ℕ)
      → Prints (print_byte bytes arguments next literal_start index argument_index none)
  unfolding print_byte
  at_end next literal_start index argument_index =
      Prints-flush bytes literal_start (length bytes) (omega arith)

  Prints-loop :
      (fuel literal_start index argument_index : ℕ)
      → index ≤ length bytes
      → length bytes - index < fuel
      → Prints (print_loop bytes arguments fuel literal_start index argument_index)
  unfolding print_loop
  Prints-loop zero literal_start index argument_index h enough = absurd (omega arith)
  Prints-loop (suc fuel) literal_start index argument_index h enough =
      elim (dec_lt index (length bytes)) [
        | yes inside ↦
            let (byte, found) = get_elem?-some bytes index inside in
            rw found (
              Prints-byte (print_loop bytes arguments fuel) literal_start index argument_index byte
                (λ l later a above below. Prints-loop fuel l later a below (omega arith)) inside)
        | no past ↦
            rw (get_elem?-none bytes index (omega arith))
              (at_end (print_loop bytes arguments fuel) literal_start index argument_index)
      ]

-- The loop runs at most once for each byte and once more.
pub print-total :
    (format : List ℕ) (arguments : List FormatArgument)
    → AllInRange arguments
    → Prints (print format arguments)
unfolding print
print-total format arguments ranges =
    Prints-loop format arguments ranges (length format + 1) 0 0 0 (omega arith) (omega arith)
