-- ===== src/Dtb/Follows.antt =====
-- src/dtb_read.rs and src/dtb_memory.rs: walks that call a callback. Which items they call it with, and
-- how they end, does not depend on the callback, but for where it stops them.
pub mod Nodes
use rustfirmware.Base.{
  ◌≡◌, refl, sym, ap, ◌∙◌, append_assoc, append-nil, Bool, true, false, List, [], ◌∷◌, ◌++◌,
  if◌then◌else◌, ok, err, panic, out_of_fuel, ◌>>=◌,
}
use rustfirmware.Dtb.Bytes.{Run}

abbrev pub Callback : Type 0 → Type 0 → Type 0
Callback X S = X → S → Run (Bool × S)

abbrev pub continue : {S : Type 0} → (S → Run S) → Bool × S → Run S
continue next (false, state) = ok state
continue next (true, state) = next state

abbrev pub continue_test : {S : Type 0} → (S → Run (Bool × S)) → Bool × S → Run (Bool × S)
continue_test next (false, state) = ok (false, state)
continue_test next (true, state) = next state

module _ {X S : Type 0} (visit : Callback X S) where
  -- The callback at each item until it returns false, and then the end.
  abbrev pub visit_items : List X → Run (Unit {0}) → S → Run S
  visit_items [] last state = last >>= λ _. ok state
  visit_items (x ∷ items) last state = visit x state >>= continue (visit_items items last)

  -- The same, with whether it came to the end.
  abbrev pub test_items : List X → Run (Unit {0}) → S → Run (Bool × S)
  test_items [] last state = last >>= λ _. ok (true, state)
  test_items (x ∷ items) last state = visit x state >>= continue_test (test_items items last)

pub bind_ext :
    {A B : Type 0} (r : Run A) (f g : A → Run B) → ((a : A) → f a ≡ g a) → (r >>= f) ≡ (r >>= g)
bind_ext (ok a) f g h = h a
bind_ext (err e) f g h = refl
bind_ext panic f g h = refl
bind_ext out_of_fuel f g h = refl

pub bind_bind :
    {A B C : Type 0} (r : Run A) (f : A → Run B) (g : B → Run C)
    → ((r >>= f) >>= g) ≡ (r >>= λ a. f a >>= g)
bind_bind (ok a) f g = refl
bind_bind (err e) f g = refl
bind_bind panic f g = refl
bind_bind out_of_fuel f g = refl

pub continue_ext :
    {S : Type 0} (f g : S → Run S) (r : Bool × S)
    → ((s : S) → f s ≡ g s)
    → continue f r ≡ continue g r
continue_ext f g (true, s) h = h s
continue_ext f g (false, s) h = refl

pub continue_test_ext :
    {S : Type 0} (f g : S → Run (Bool × S)) (r : Bool × S)
    → ((s : S) → f s ≡ g s)
    → continue_test f r ≡ continue_test g r
continue_test_ext f g (true, s) h = h s
continue_test_ext f g (false, s) h = refl

abbrev value_or : {A : Type 0} → A → Run A → A
value_or default (ok a) = a
value_or default r = default

-- A walk, for each type of states.
abbrev pub Walk : (X : Type 0) → (Type 0 → Type 0) → Type 1
Walk X R = (S : Type 0) → Callback X S → S → Run (R S)

abbrev pub Tested : Type 0 → Type 0
Tested S = Bool × S

pub data Follows {X : Type 0} (walk : Walk X (λ S. S)) : Type 1 where
  follows :
      (items : List X) (last : Run (Unit {0}))
      → ((S : Type 0) (visit : Callback X S) (state : S)
          → walk S visit state ≡ visit_items visit items last state)
      → Follows walk

pub data Tests {X : Type 0} (walk : Walk X Tested) : Type 1 where
  tests :
      (items : List X) (last : Run (Unit {0}))
      → ((S : Type 0) (visit : Callback X S) (state : S)
          → walk S visit state ≡ test_items visit items last state)
      → Tests walk

module _ {X : Type 0} where
  pub Follows-bind :
      {A : Type 0} (r : Run A) (next : A → Walk X (λ S. S))
      → ((a : A) → Follows (next a))
      → Follows (λ S visit state. r >>= λ a. next a S visit state)
  Follows-bind (ok a) next h = h a
  Follows-bind (err e) next h = absurd e
  Follows-bind panic next h = follows [] panic (λ S visit state. refl)
  Follows-bind out_of_fuel next h = follows [] out_of_fuel (λ S visit state. refl)

  pub Follows-if :
      (test : Bool) (walk other : Walk X (λ S. S))
      → Follows walk
      → Follows other
      → Follows (λ S visit state. if test then walk S visit state else other S visit state)
  Follows-if true walk other f g = f
  Follows-if false walk other f g = g

  pub Follows-call :
      (x : X) (walk : Walk X (λ S. S))
      → Follows walk
      → Follows (λ S visit state. visit x state >>= continue (walk S visit))
  Follows-call x walk (follows items last h) = follows (x ∷ items) last (λ S visit state.
      bind_ext (visit x state) (continue (walk S visit)) (continue (visit_items visit items last))
        (λ r. continue_ext _ _ r (h S visit)))

  pub Follows-same :
      (walk other : Walk X (λ S. S))
      → ((S : Type 0) (visit : Callback X S) (state : S) → walk S visit state ≡ other S visit state)
      → Follows other
      → Follows walk
  Follows-same walk other same (follows items last h) =
      follows items last (λ S visit state. same S visit state ∙ h S visit state)

  pub Tests-bind :
      {A : Type 0} (r : Run A) (next : A → Walk X Tested)
      → ((a : A) → Tests (next a))
      → Tests (λ S visit state. r >>= λ a. next a S visit state)
  Tests-bind (ok a) next h = h a
  Tests-bind (err e) next h = absurd e
  Tests-bind panic next h = tests [] panic (λ S visit state. refl)
  Tests-bind out_of_fuel next h = tests [] out_of_fuel (λ S visit state. refl)

  pub Tests-if :
      (test : Bool) (walk other : Walk X Tested)
      → Tests walk
      → Tests other
      → Tests (λ S visit state. if test then walk S visit state else other S visit state)
  Tests-if true walk other f g = f
  Tests-if false walk other f g = g

  pub Tests-call :
      (x : X) (walk : Walk X Tested)
      → Tests walk
      → Tests (λ S visit state. visit x state >>= continue_test (walk S visit))
  Tests-call x walk (tests items last h) = tests (x ∷ items) last (λ S visit state.
      bind_ext (visit x state) (continue_test (walk S visit))
        (continue_test (test_items visit items last)) (λ r. continue_test_ext _ _ r (h S visit)))

  pub Tests-same :
      (walk other : Walk X Tested)
      → ((S : Type 0) (visit : Callback X S) (state : S) → walk S visit state ≡ other S visit state)
      → Tests other
      → Tests walk
  Tests-same walk other same (tests items last h) =
      tests items last (λ S visit state. same S visit state ∙ h S visit state)

  after_part :
      {S : Type 0} (visit : Callback X S) (items rest : List X) (last last' : Run (Unit {0}))
      (next : S → Run S) (r : Bool × S)
      → ((s : S)
          → (test_items visit items last s >>= continue next)
            ≡ visit_items visit (items ++ rest) last' s)
      → (continue_test (test_items visit items last) r >>= continue next)
        ≡ continue (visit_items visit (items ++ rest) last') r
  after_part visit items rest last last' next (true, s) h = h s
  after_part visit items rest last last' next (false, s) h = refl

  -- The items of a part, and what follows its end.
  part :
      {S : Type 0} (visit : Callback X S) (items rest : List X) (last last' : Run (Unit {0}))
      (next : S → Run S) (state : S)
      → ((s : S) → (test_items visit [] last s >>= continue next) ≡ visit_items visit rest last' s)
      → (test_items visit items last state >>= continue next)
        ≡ visit_items visit (items ++ rest) last' state
  part visit [] rest last last' next state h = h state
  part visit (x ∷ items) rest last last' next state h =
      bind_bind (visit x state) (continue_test (test_items visit items last)) (continue next)
      ∙ bind_ext (visit x state) _ _ (λ r.
        after_part visit items rest last last' next r
          (λ s. part visit items rest last last' next s h))

  pub Follows-part :
      (walk : Walk X Tested) (other : Walk X (λ S. S))
      → Tests walk
      → Follows other
      → Follows (λ S visit state. walk S visit state >>= continue (other S visit))
  Follows-part walk other (tests items (ok _) h) (follows rest last k) =
      follows (items ++ rest) last (λ S visit state.
        rw (h S visit state) (part visit items rest (ok tt) last (other S visit) state (k S visit)))
  Follows-part walk other (tests items (err e) h) (follows rest last k) = absurd e
  Follows-part walk other (tests items panic h) (follows rest last k) =
      follows (items ++ []) panic (λ S visit state.
        rw (h S visit state) (part visit items [] panic panic (other S visit) state (λ s. refl)))
  Follows-part walk other (tests items out_of_fuel h) (follows rest last k) =
      follows (items ++ []) out_of_fuel (λ S visit state.
        rw (h S visit state)
          (part visit items [] out_of_fuel out_of_fuel (other S visit) state (λ s. refl)))

  -- A walk whose callback walks itself.
  pub Follows-inner :
      {Y : Type 0} (inner : Y → Walk X Tested) (items : List Y) (last : Run (Unit {0}))
      → ((y : Y) → Tests (inner y))
      → Follows (λ S visit state. visit_items (λ y. inner y S visit) items last state)
  Follows-inner inner [] last h = follows [] last (λ S visit state. refl)
  Follows-inner inner (y ∷ items) last h =
      Follows-part (inner y) (λ S visit state. visit_items (λ y. inner y S visit) items last state)
        (h y) (Follows-inner inner items last h)

  pub Follows-nested :
      {Y : Type 0} (walk : Walk Y (λ S. S)) (inner : Y → Walk X Tested)
      → Follows walk
      → ((y : Y) → Tests (inner y))
      → Follows (λ S visit state. walk S (λ y. inner y S visit) state)
  Follows-nested walk inner (follows items last h) k =
      Follows-same _ (λ S visit state. visit_items (λ y. inner y S visit) items last state)
        (λ S visit state. h S (λ y. inner y S visit) state) (Follows-inner inner items last k)

  -- A callback that collects the items, and what another callback makes of them.
  abbrev pub collect : Callback X (List X)
  collect x found = ok (true, found ++ x ∷ [])

  collected :
      (items found : List X) (last : Run (Unit {0}))
      → visit_items collect items last found ≡ (last >>= λ _. ok (found ++ items))
  collected [] found last = rw (append-nil found) refl
  collected (x ∷ items) found last =
      collected items (found ++ x ∷ []) last ∙ rw (append_assoc found (x ∷ []) items) refl

  came_to_end :
      (items found : List X) (last : Run (Unit {0}))
      → (last >>= λ _. ok items) ≡ ok found
      → (last ≡ ok tt) × (items ≡ found)
  came_to_end items found (ok _) h = (refl, ap (value_or items) h)
  came_to_end items found (err e) h = absurd e
  came_to_end items found panic h = absurd cc
  came_to_end items found out_of_fuel h = absurd cc

  -- Where the collecting callback returns a list, any other is called at the items of the list in turn,
  -- until it returns false.
  pub collect-visits :
      (walk : Walk X (λ S. S)) (found : List X)
      → Follows walk
      → walk (List X) collect [] ≡ ok found
      → (S : Type 0) (visit : Callback X S) (state : S)
      → walk S visit state ≡ visit_items visit found (ok tt) state
  collect-visits walk found (follows items last h) run S visit state =
      let (e, same) =
        came_to_end items found last
          (sym (collected items [] last) ∙ sym (h (List X) collect []) ∙ run) in
      rw (← e, ← same) (h S visit state)
