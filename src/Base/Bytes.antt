-- ===== src/Base/Bytes.antt =====
-- Byte slices: equality, and numbers in big-endian bytes.
use rustfirmware.Base.Lists.{take, drop}
use rustfirmware.Base.Tests.{◌==◌}
use Prim.Native.Nat.{ℕ, zero, suc, ◌+◌, ◌*◌, ◌/◌, ◌%◌, ◌^◌, ◌<◌}
use mathlib.Core.Path.{◌≡◌}
use mathlib.Core.Bool.{Bool, true, false, ◌&&◌}
use mathlib.Core.List.{List, [], ◌∷◌}
use native.Mathlib.Omega.{arith}

-- Equality of byte slices.
unfoldable pub bytes_eq : List ℕ → List ℕ → Bool
bytes_eq [] [] = true
bytes_eq (x ∷ xs) (y ∷ ys) = x == y && bytes_eq xs ys
bytes_eq _ _ = false

-- `from_be_bytes`: the first byte is the highest.
abbrev pub be_from : ℕ → List ℕ → ℕ
be_from high [] = high
be_from high (byte ∷ bytes) = be_from (high * 256 + byte) bytes

abbrev pub from_be_bytes : List ℕ → ℕ
from_be_bytes bytes = be_from 0 bytes

-- The four bytes of a 32-bit number.
abbrev pub to_be_bytes : ℕ → List ℕ
to_be_bytes value =
    (value / 16777216 % 256) ∷ (value / 65536 % 256) ∷ (value / 256 % 256) ∷ (value % 256) ∷ []

pub from_be_bytes-to_be_bytes :
    (value : ℕ) → value < 2 ^ 32 → from_be_bytes (to_be_bytes value) ≡ value
from_be_bytes-to_be_bytes value h = omega arith

abbrev pub AllBytes : List ℕ → Type 0
AllBytes [] = Unit {0}
AllBytes (byte ∷ bytes) = (byte < 256) × AllBytes bytes

pub AllBytes-drop : (n : ℕ) (bytes : List ℕ) → AllBytes bytes → AllBytes (drop n bytes)
AllBytes-drop zero bytes h = h
AllBytes-drop (suc n) [] h = tt
AllBytes-drop (suc n) (byte ∷ bytes) (_, h) = AllBytes-drop n bytes h

pub AllBytes-take : (n : ℕ) (bytes : List ℕ) → AllBytes bytes → AllBytes (take n bytes)
AllBytes-take zero bytes h = tt
AllBytes-take (suc n) [] h = tt
AllBytes-take (suc n) (byte ∷ bytes) (small, h) = (small, AllBytes-take n bytes h)

-- Four bytes make a 32-bit number, and fewer make a smaller one.
pub from_be_bytes-take_four :
    (bytes : List ℕ) → AllBytes bytes → from_be_bytes (take 4 bytes) < 2 ^ 32
from_be_bytes-take_four [] h = omega arith
from_be_bytes-take_four (a ∷ []) h = omega arith
from_be_bytes-take_four (a ∷ b ∷ []) h = omega arith
from_be_bytes-take_four (a ∷ b ∷ c ∷ []) h = omega arith
from_be_bytes-take_four (a ∷ b ∷ c ∷ d ∷ bytes) h = omega arith
