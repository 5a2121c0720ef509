-- ===== src/Memory/Monad.antt =====
-- Methods on `&mut PageAllocator`: a step returns its outcome with the allocator as the step left
-- it, also where it returns an error.
use rustfirmware.Base.{ok, err, panic, out_of_fuel}
use rustfirmware.Memory.Types.{PageAllocator}
use rustfirmware.Memory.Arith.{Result}

abbrev pub Method : Type 0 → Type 0
Method A = PageAllocator → Result A × PageAllocator

abbrev pub bind_outcome :
    {A B : Type 0} → Result A × PageAllocator → (A → Method B) → Result B × PageAllocator
bind_outcome (ok x, a) f = f x a
bind_outcome (err e, a) f = (err e, a)
bind_outcome (panic, a) f = (panic, a)
bind_outcome (out_of_fuel, a) f = (out_of_fuel, a)

infixl 5 ◌>>=◌ ◌>>◌
abbrev pub ◌>>=◌ : {A B : Type 0} → Method A → (A → Method B) → Method B
◌>>=◌ m f a = bind_outcome (m a) f

abbrev pub ◌>>◌ : {B : Type 0} → Method (Unit {0}) → Method B → Method B
◌>>◌ m k a = bind_outcome (m a) (λ _. k)

abbrev pub lift : {A : Type 0} → Result A → Method A
lift r a = (r, a)

abbrev pub pure : {A : Type 0} → A → Method A
pure x a = (ok x, a)

abbrev pub self : Method PageAllocator
self a = (ok a, a)

abbrev pub put : PageAllocator → Method (Unit {0})
put b a = (ok tt, b)
