-- ===== src/Dtb/Total.antt =====
-- src/dtb_read.rs: what a search and a run that end normally give, whatever the blob is.
pub mod Reads
pub mod Walks
use rustfirmware.Base.{
  ℕ, ◌≡◌, refl, Bool, true, false, Option, none, some, Outcome, ok, err, panic, out_of_fuel, ok_or,
  ◌>>=◌, if◌then◌else◌,
}
use rustfirmware.Dtb.Bytes.{Absent, absent, Search, Run, attempt}

-- A search ends, and what it gives has the property.
pub data Finds {A : Type 0} (P : A → Type 0) : Search A → Type 0 where
  gives : {a : A} → P a → Finds P (ok a)
  misses : {e : Absent} → Finds P (err e)

-- A run ends, and what it returns has the property.
pub data Returns {A : Type 0} (P : A → Type 0) : Run A → Type 0 where
  returns : {a : A} → P a → Returns P (ok a)

module _ {A B : Type 0} where
  pub Finds-then :
      {P : A → Type 0} {Q : B → Type 0} {s : Search A} (next : A → Search B)
      → Finds P s
      → ((a : A) → P a → Finds Q (next a))
      → Finds Q (s >>= next)
  Finds-then next (gives {a} h) rest = rest a h
  Finds-then next misses rest = misses

  pub Finds-option :
      {Q : B → Type 0} (o : Option A) (next : A → Search B)
      → ((a : A) → o ≡ some a → Finds Q (next a))
      → Finds Q (ok_or o absent >>= next)
  Finds-option none next rest = misses
  Finds-option (some a) next rest = rest a refl

  pub Returns-then :
      {P : A → Type 0} {Q : B → Type 0} {s : Run A} (next : A → Run B)
      → Returns P s
      → ((a : A) → P a → Returns Q (next a))
      → Returns Q (s >>= next)
  Returns-then next (returns {a} h) rest = rest a h

module _ {A : Type 0} where
  pub Finds-or :
      {P : A → Type 0} (o : Option A) → ((a : A) → o ≡ some a → P a) → Finds P (ok_or o absent)
  Finds-or none h = misses
  Finds-or (some a) h = gives (h a refl)

  pub Finds-if :
      {P : A → Type 0} (test : Bool) (s t : Search A)
      → Finds P s
      → Finds P t
      → Finds P (if test then s else t)
  Finds-if true s t h k = h
  Finds-if false s t h k = k

  pub Returns-if :
      {P : A → Type 0} (test : Bool) (s t : Run A)
      → Returns P s
      → Returns P t
      → Returns P (if test then s else t)
  Returns-if true s t h k = h
  Returns-if false s t h k = k

  -- The property of a value that may be missing.
  abbrev pub Holds : (A → Type 0) → Option A → Type 0
  Holds P none = Unit {0}
  Holds P (some a) = P a

  pub Returns-attempt : {P : A → Type 0} {s : Search A} → Finds P s → Returns (Holds P) (attempt s)
  Returns-attempt (gives h) = returns h
  Returns-attempt misses = returns tt
