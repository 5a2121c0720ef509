-- ===== src/Print/Engine/Pieces/Position.antt =====
-- src/print.rs: where the loop over the format string stands.
use rustfirmware.Base.{
  ℕ, ◌+◌, ◌-◌, ◌≡◌, refl, ap, sym, ◌∙◌, false, List, [], ◌∷◌, ◌++◌, append_assoc, none, some,
  length, take, drop, length-append, get_elem?, leb, ok, arith,
}
use rustfirmware.Print.Engine.{slice, flush_literal, closing_brace_from, is_byte}
use rustfirmware.Print.Engine.Pieces.{StartsWithout, NoneIs}

-- Reading a list that is split at an index.
pub get_elem?-at :
    {A : Type 0} (pre rest : List A) → get_elem? (pre ++ rest) (length pre) ≡ get_elem? rest 0
get_elem?-at [] rest = refl
get_elem?-at (x ∷ pre) rest = get_elem?-at pre rest

pub drop-at : (pre rest : List ℕ) → drop (length pre) (pre ++ rest) ≡ rest
drop-at [] rest = refl
drop-at (x ∷ pre) rest = drop-at pre rest

pub take-at : (mid rest : List ℕ) → take (length mid) (mid ++ rest) ≡ mid
take-at [] rest = refl
take-at (x ∷ mid) rest = ap (◌∷◌ x) (take-at mid rest)

pub slice-at :
    (bytes pre mid rest : List ℕ) (start end : ℕ)
    → bytes ≡ pre ++ (mid ++ rest)
    → start ≡ length pre
    → end ≡ length pre + length mid
    → slice bytes start end ≡ ok mid
slice-at bytes pre mid rest start end whole s e =
    let n : length pre + length mid - length pre ≡ length mid = omega arith in
    rw (whole, s, e, n, drop-at pre (mid ++ rest), take-at mid rest)
      (ground (arith, length-append pre (mid ++ rest), length-append mid rest))

pub flush-at :
    (bytes pre mid rest : List ℕ) (start end : ℕ)
    → bytes ≡ pre ++ (mid ++ rest)
    → start ≡ length pre
    → end ≡ length pre + length mid
    → flush_literal bytes start end ≡ ok mid
unfolding flush_literal
flush-at bytes pre [] rest start end whole s e = ground arith
flush-at bytes pre (x ∷ mid) rest start end whole s e =
    let above : leb end start ≡ false = ground arith in
    rw above (slice-at bytes pre (x ∷ mid) rest start end whole s e)

pub closing_brace_from-none :
    (spec : List ℕ) (index : ℕ) → NoneIs b'}' spec → closing_brace_from spec index ≡ none
unfolding closing_brace_from
closing_brace_from-none [] index h = refl
closing_brace_from-none (c ∷ spec) index (other, h) =
    ground (arith, other, closing_brace_from-none spec (index + 1) h)

pub closing_brace_from-some :
    (spec rest : List ℕ) (index : ℕ)
    → NoneIs b'}' spec
    → closing_brace_from (spec ++ b'}' ∷ rest) index ≡ some (index + length spec)
unfolding closing_brace_from
closing_brace_from-some [] rest index h = ground arith
closing_brace_from-some (c ∷ spec) rest index (other, h) =
    ground (arith, other, closing_brace_from-some spec rest (index + 1) h)

module _ (bytes : List ℕ) where
  -- The loop stands before `rest`, with the plain bytes `pending` not yet printed.
  pub record At (pre pending rest : List ℕ) (literal_start index : ℕ) : Type 0 where
    pub whole : bytes ≡ pre ++ (pending ++ rest)
    pub start : literal_start ≡ length pre
    pub here : index ≡ length pre + length pending

  pub At-byte :
      (pre pending rest : List ℕ) (literal_start index : ℕ)
      → At pre pending rest literal_start index
      → get_elem? bytes index ≡ get_elem? rest 0
  At-byte pre pending rest literal_start index a =
      let e : index ≡ length (pre ++ pending) = omega (arith, a.here, length-append pre pending) in
      rw (a.whole, e, sym (append_assoc pre pending rest)) (get_elem?-at (pre ++ pending) rest)

  pub At-plain :
      (pre pending rest : List ℕ) (byte literal_start index : ℕ)
      → At pre pending (byte ∷ rest) literal_start index
      → At pre (pending ++ byte ∷ []) rest literal_start (index + 1)
  At-plain pre pending rest byte literal_start index a = record {
    whole = a.whole ∙ ap (λ (t : List ℕ). pre ++ t) (sym (append_assoc pending (byte ∷ []) rest));
    start = a.start;
    here = omega (arith, a.here, length-append pending (byte ∷ []));
  }

  pub At-skip :
      (pre pending skip rest : List ℕ) (literal_start index later : ℕ)
      → At pre pending (skip ++ rest) literal_start index
      → later ≡ index + length skip
      → At (pre ++ (pending ++ skip)) [] rest later later
  At-skip pre pending skip rest literal_start index later a e =
      let size : later ≡ length (pre ++ (pending ++ skip)) =
        omega (arith, a.here, length-append pre (pending ++ skip), length-append pending skip) in
      record {
        whole =
            a.whole
            ∙ ap (λ (t : List ℕ). pre ++ t) (sym (append_assoc pending skip rest))
            ∙ sym (append_assoc pre (pending ++ skip) rest);
        start = size;
        here = omega (arith, size);
      }

  pub At-next :
      (pre pending rest : List ℕ) (byte literal_start index : ℕ)
      → At pre pending (byte ∷ rest) literal_start index
      → get_elem? bytes (index + 1) ≡ get_elem? rest 0
  At-next pre pending rest byte literal_start index a =
      At-byte pre (pending ++ byte ∷ []) rest literal_start (index + 1)
        (At-plain pre pending rest byte literal_start index a)

  pub At-flush :
      (pre pending rest : List ℕ) (literal_start index : ℕ)
      → At pre pending rest literal_start index
      → flush_literal bytes literal_start index ≡ ok pending
  At-flush pre pending rest literal_start index a =
      flush-at bytes pre pending rest literal_start index a.whole a.start a.here

  -- The placeholder's text, from the byte behind its brace.
  pub At-drop :
      (pre pending rest : List ℕ) (byte literal_start index : ℕ)
      → At pre pending (byte ∷ rest) literal_start index
      → drop (index + 1) bytes ≡ rest
  At-drop pre pending rest byte literal_start index a =
      let b =
        At-skip pre pending (byte ∷ []) rest literal_start index (index + 1) a (omega arith) in
      rw (b.whole, b.start) (drop-at (pre ++ (pending ++ byte ∷ [])) rest)

  pub not_byte :
      (byte : ℕ) (rest : List ℕ) → StartsWithout byte rest → is_byte byte (get_elem? rest 0) ≡ false
  not_byte byte [] h = refl
  not_byte byte (c ∷ rest) h = ground (arith, h)
