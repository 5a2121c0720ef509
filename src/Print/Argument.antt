-- ===== src/Print/Argument.antt =====
-- src/print.rs: the arguments of the printer and the values they are made from.
use rustfirmware.Base.{ℕ, ◌<◌, ◌^◌, Bool, List, [], ◌∷◌, Outcome}

-- What the printer hands to `puts`, in order. Nothing of the printer returns an error.
abbrev pub Output : Type 0
Output = Outcome ⊥ (List ℕ)

pub data FormatArgument : Type 0 where
  str : List ℕ → FormatArgument
  bool : Bool → FormatArgument
  usize u64 u32 : ℕ → FormatArgument

-- The types that implement `IntoFormatArgument`.
pub data IntoFormatArgument : Type 0 where
  str_value : List ℕ → IntoFormatArgument
  bool_value : Bool → IntoFormatArgument
  usize_value u64_value u32_value u8_value : ℕ → IntoFormatArgument

unfoldable pub into_argument : IntoFormatArgument → FormatArgument
into_argument (str_value text) = str text
into_argument (bool_value value) = bool value
into_argument (usize_value value) = usize value
into_argument (u64_value value) = u64 value
into_argument (u32_value value) = u32 value
into_argument (u8_value value) = u32 value

-- An integer argument fits its type; `usize` has 64 bits on the target.
abbrev pub InRange : FormatArgument → Type 0
InRange (str text) = Unit {0}
InRange (bool value) = Unit {0}
InRange (usize value) = value < 2 ^ 64
InRange (u64 value) = value < 2 ^ 64
InRange (u32 value) = value < 2 ^ 32

abbrev pub AllInRange : List FormatArgument → Type 0
AllInRange [] = Unit {0}
AllInRange (argument ∷ arguments) = InRange argument × AllInRange arguments
