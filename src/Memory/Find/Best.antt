-- ===== src/Memory/Find/Best.antt =====
-- A search that offers at most one address for each descriptor and keeps the best one.
use rustfirmware.Base.{
  ℕ, ◌≤◌, ◌≡◌, refl, ◌∙◌, List, [], ◌∷◌, Option, none, some, ok, arith, ◌⊎◌, inl, inr, max, min,
}
use rustfirmware.Memory.Types.{EfiMemoryDescriptor, AllocationDirection}
use rustfirmware.Memory.Types
use rustfirmware.Memory.Arith.{Result}
use rustfirmware.Memory.Map.{end_of, IsRange, IsMap}
use rustfirmware.Memory.Find.{each_candidate, better}

-- `s` is no better an address than `t`.
abbrev pub NoBetter : AllocationDirection → ℕ → ℕ → Type 0
NoBetter Types.low s t = t ≤ s
NoBetter Types.high s t = s ≤ t

-- What is offered is no better than the result; where there is no result, nothing is offered.
abbrev pub Beaten : AllocationDirection → ℕ → Option ℕ → Type 0
Beaten direction s none = ⊥
Beaten direction s (some t) = NoBetter direction s t

abbrev pub All : (EfiMemoryDescriptor → Type 0) → List EfiMemoryDescriptor → Type 0
All P [] = Unit {0}
All P (d ∷ ds) = P d × All P ds

abbrev pub Any : (EfiMemoryDescriptor → Type 0) → List EfiMemoryDescriptor → Type 0
Any P [] = ⊥
Any P (d ∷ ds) = P d ⊎ Any P ds

abbrev pub pick : AllocationDirection → Option ℕ → Option ℕ → Option ℕ
pick direction c none = c
pick direction c (some s) = some (better direction c s)

-- A pick is no worse than what it was made from, and it is one of the two.
pick_old :
    (direction : AllocationDirection) (s : ℕ) (o : Option ℕ)
    → (t : ℕ) × (pick direction (some s) o ≡ some t) × NoBetter direction s t
pick_old Types.low s none = (s, refl, omega arith)
pick_old Types.low s (some o) = (min s o, refl, omega arith)
pick_old Types.high s none = (s, refl, omega arith)
pick_old Types.high s (some o) = (max s o, refl, omega arith)

pick_new :
    (direction : AllocationDirection) (c : Option ℕ) (s : ℕ)
    → (t : ℕ) × (pick direction c (some s) ≡ some t) × NoBetter direction s t
pick_new Types.low none s = (s, refl, omega arith)
pick_new Types.low (some c) s = (min c s, refl, omega arith)
pick_new Types.high none s = (s, refl, omega arith)
pick_new Types.high (some c) s = (max c s, refl, omega arith)

pick_cases :
    (direction : AllocationDirection) (c o : Option ℕ)
    → (pick direction c o ≡ c) ⊎ (pick direction c o ≡ o)
pick_cases direction c none = inl refl
pick_cases Types.low none (some s) = inr refl
pick_cases Types.low (some c) (some s) = ground arith
pick_cases Types.high none (some s) = inr refl
pick_cases Types.high (some c) (some s) = ground arith

pub Beaten-trans :
    (direction : AllocationDirection) (s t : ℕ) (r : Option ℕ)
    → NoBetter direction s t
    → Beaten direction t r
    → Beaten direction s r
Beaten-trans Types.low s t (some r) h k = omega arith
Beaten-trans Types.high s t (some r) h k = omega arith
Beaten-trans direction s t none h k = k

NoBetter-refl : (direction : AllocationDirection) (s : ℕ) → NoBetter direction s s
NoBetter-refl Types.low s = omega arith
NoBetter-refl Types.high s = omega arith

module _ (direction : AllocationDirection) (offer : EfiMemoryDescriptor → Option ℕ) where
  unfoldable pub best_from : Option ℕ → List EfiMemoryDescriptor → Option ℕ
  best_from c [] = c
  best_from c (d ∷ ds) = best_from (pick direction c (offer d)) ds

  -- Of all offers the result is the best: none is better, and it is one of them.
  pub record IsBest (v : List EfiMemoryDescriptor) (r : Option ℕ) : Type 0 where
    pub beats : All (λ d. (s : ℕ) → offer d ≡ some s → Beaten direction s r) v
    pub offered : (r ≡ none) ⊎ Any (λ d. r ≡ offer d) v

  best_from-old : (s : ℕ) (v : List EfiMemoryDescriptor) → Beaten direction s (best_from (some s) v)
  unfolding best_from
  best_from-old s [] = NoBetter-refl direction s
  best_from-old s (d ∷ ds) =
      let (t, picked, h) = pick_old direction s (offer d) in
      rw picked (Beaten-trans direction s t _ h (best_from-old t ds))

  best_from-beats :
      (c : Option ℕ) (v : List EfiMemoryDescriptor)
      → All (λ d. (s : ℕ) → offer d ≡ some s → Beaten direction s (best_from c v)) v
  unfolding best_from
  best_from-beats c [] = tt
  best_from-beats c (d ∷ ds) = (
    λ s e.
        let (t, picked, h) = pick_new direction c s in
        rw (e, picked) (Beaten-trans direction s t _ h (best_from-old t ds)),
    best_from-beats (pick direction c (offer d)) ds,
  )

  best_from-offered :
      (c : Option ℕ) (v : List EfiMemoryDescriptor)
      → (best_from c v ≡ c) ⊎ Any (λ d. best_from c v ≡ offer d) v
  unfolding best_from
  best_from-offered c [] = inl refl
  best_from-offered c (d ∷ ds) = elim (best_from-offered (pick direction c (offer d)) ds) [
    | inr later ↦ inr (inr later)
    | inl e ↦ elim (pick_cases direction c (offer d)) [
      | inl old ↦ inl (e ∙ old)
      | inr new ↦ inr (inl (e ∙ new))
    ]
  ]

  pub best_from-IsBest : (v : List EfiMemoryDescriptor) → IsBest v (best_from none v)
  best_from-IsBest v = record { beats = best_from-beats none v; offered = best_from-offered none v }

  -- A loop whose body considers the offer of each descriptor of a map finds the best one. `Q` is
  -- what the body needs of a descriptor besides.
  pub each_candidate-best :
      (body : Option ℕ → EfiMemoryDescriptor → Result (Option ℕ)) (Q : EfiMemoryDescriptor → Type 0)
      → ((c : Option ℕ) (d : EfiMemoryDescriptor)
          → IsRange d
          → Q d
          → body c d ≡ ok (pick direction c (offer d)))
      → (c : Option ℕ) (lo : ℕ) (v : List EfiMemoryDescriptor) → IsMap lo v
      → All Q v
      → each_candidate body c v ≡ ok (best_from c v)
  unfolding each_candidate best_from
  each_candidate-best body Q step c lo [] m q = refl
  each_candidate-best body Q step c lo (d ∷ ds) m q =
      rw (step c d m.1 q.0)
        (each_candidate-best body Q step (pick direction c (offer d)) (end_of d) ds m.2 q.1)

pub All-Unit : (v : List EfiMemoryDescriptor) → All (λ _. Unit {0}) v
All-Unit [] = tt
All-Unit (d ∷ ds) = (tt, All-Unit ds)

-- Facts that follow from one another for every range of a map.
pub All-map :
    (P Q : EfiMemoryDescriptor → Type 0) (lo : ℕ) (v : List EfiMemoryDescriptor)
    → ((d : EfiMemoryDescriptor) → IsRange d → P d → Q d)
    → IsMap lo v
    → All P v
    → All Q v
All-map P Q lo [] f m h = tt
All-map P Q lo (d ∷ ds) f m h = (f d m.1 h.0, All-map P Q (end_of d) ds f m.2 h.1)

pub Any-map :
    (P Q : EfiMemoryDescriptor → Type 0) (lo : ℕ) (v : List EfiMemoryDescriptor)
    → ((d : EfiMemoryDescriptor) → IsRange d → P d → Q d)
    → IsMap lo v
    → Any P v
    → Any Q v
Any-map P Q lo [] f m h = h
Any-map P Q lo (d ∷ ds) f m (inl h) = inl (f d m.1 h)
Any-map P Q lo (d ∷ ds) f m (inr h) = inr (Any-map P Q (end_of d) ds f m.2 h)

-- A fact that some descriptor has whichever it is.
pub Any-const : (P : Type 0) (v : List EfiMemoryDescriptor) → Any (λ _. P) v → P
Any-const P [] h = elim h [ ]
Any-const P (d ∷ ds) (inl h) = h
Any-const P (d ∷ ds) (inr h) = Any-const P ds h
