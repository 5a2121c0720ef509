-- ===== src/Memory/Build/Maps.antt =====
-- What the methods that build the map do to the type of each address.
use rustfirmware.Base.{ℕ, ◌≡◌, ap, ◌∙◌, Bool, Option, ok, err, length}
use rustfirmware.Memory.Types.{EfiMemoryType, MemoryError, PageAllocator}
use rustfirmware.Memory.Arith.{Result}
use rustfirmware.Memory.Monad.{Method, bind_outcome}
use rustfirmware.Memory.Buffer.{coalesce}
use rustfirmware.Memory.Find.{active}
use rustfirmware.Memory.Map.{type_at}
use rustfirmware.Memory.Exact.{IsValid}
use rustfirmware.Memory.Exact.Coalesced.{coalesce-Coalesced}
use rustfirmware.Memory.Carve.Calls.{claimed, Claims, claimed_all, cut_short, ends_high}

-- What a method does to the type of each address, where it does not return an error.
pub data Maps (change : ℕ → Option ℕ → Option ℕ) (a : PageAllocator)
    : Result (Unit {0}) × PageAllocator → Type 0 where
  mapped :
      {b : PageAllocator}
      → IsValid b
      → length b.descriptors ≡ length a.descriptors
      → ((x : ℕ) → type_at (active b) x ≡ change x (type_at (active a) x))
      → Maps change a (ok tt, b)
  failed : {b : PageAllocator} {e : MemoryError} → Maps change a (err e, b)

-- One method after another, where the second one may rely on what the first one did.
pub Maps-then :
    (f g : ℕ → Option ℕ → Option ℕ) (a : PageAllocator) (next : Method (Unit {0}))
    {r : Result (Unit {0}) × PageAllocator}
    → Maps f a r
    → ((b : PageAllocator)
        → IsValid b
        → ((x : ℕ) → type_at (active b) x ≡ f x (type_at (active a) x))
        → Maps g b (next b))
    → Maps (λ x o. g x (f x o)) a (bind_outcome r (λ _. next))
Maps-then f g a next (mapped {b} valid capacity types) k = after (k b valid types)
  where
    after : {s : Result (Unit {0}) × PageAllocator} → Maps g b s → Maps (λ x o. g x (f x o)) a s
    after (mapped valid' capacity' types') =
        mapped valid' (capacity' ∙ capacity) (λ x. types' x ∙ ap (g x) (types x))
    after failed = failed
Maps-then f g a next failed k = failed

pub Claims-Maps :
    {carvable : ℕ → Bool} {type : EfiMemoryType} {inside : ℕ → Bool} {IsHigh : Type 0}
    {a : PageAllocator} {r : Result (Unit {0}) × PageAllocator}
    → Claims carvable type inside IsHigh a r
    → Maps (λ x o. claimed carvable (inside x) type o) a r
Claims-Maps (claimed_all valid capacity types) = mapped valid capacity types
Claims-Maps (cut_short valid capacity) = failed
Claims-Maps (ends_high high) = failed

pub coalesce-Maps : (a : PageAllocator) → IsValid a → Maps (λ x o. o) a (coalesce a)
coalesce-Maps a valid =
    let (b, runs, same) = coalesce-Coalesced a valid in
    rw runs (mapped same.valid same.capacity same.types)
