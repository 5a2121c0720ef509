-- ===== src/Memory/Carve/Meaning.antt =====
-- What carving means for the map: the carvable pages of the range get the new type, and no others.
use rustfirmware.Base.{
  ℕ, zero, suc, ◌+◌, ◌-◌, ◌*◌, ◌%◌, ◌≤◌, ◌<◌, ◌≡◌, refl, sym, ap, ◌∙◌, Bool, true, false, ◌&&◌,
  List, [], ◌∷◌, ◌++◌, Option, none, some, ok, err, arith, length, length-append, length-drop,
  append_assoc, drop, ltb, leb, if◌then◌else◌, ◌⊎◌, inl, inr, Bool-cases, min,
}
use native.Mathlib.Decide.{dec_lt, dec_le}
use rustfirmware.Memory.Types.{
  EfiMemoryDescriptor, EfiMemoryType, as_uint32, PageAllocator, buffer_too_small,
}
use rustfirmware.Memory.Arith.{Result}
use rustfirmware.Memory.Alloc.{part, carve_loop}
use rustfirmware.Memory.Packed.{packed}
use rustfirmware.Memory.Map.{end_of, covers, type_at, IsMap, type_at-below}
use rustfirmware.Memory.Split.{IsWithin, pieces, pages_before, pages_after, middle, next_index}
use rustfirmware.Memory.Split.Meaning.{before_exact, after_exact, after-IsMap, before-IsMap}
use rustfirmware.Memory.Carve.{
  first_page, shared_pages, shared-IsWithin, round-before, round-kept, round-past, round-carved,
  round-full,
}

module _ (carvable : ℕ → Bool) (start end : ℕ) (type : EfiMemoryType) where
  -- What a map says at an address after carving, from what it said before.
  abbrev pub carved : ℕ → Option ℕ → Option ℕ
  carved x none = none
  carved x (some t) =
      if leb start x && ltb x end && carvable t then some (as_uint32 type) else some t

  -- The loop at the descriptors `post`, behind `pre`, leaves a map of the same range in the same
  -- buffer. It ends normally, and then the map is the carved one, or the buffer is full.
  pub record Carves (lo : ℕ) (pre post room : List EfiMemoryDescriptor)
      (r : Result (Unit {0}) × PageAllocator) : Type 0 where
    pub outcome : Result (Unit {0})
    pub post' : List EfiMemoryDescriptor
    pub room' : List EfiMemoryDescriptor
    pub runs : r ≡ (outcome, packed (pre ++ post') room')
    pub size : length post' + length room' ≡ length post + length room
    pub map : IsMap lo post'
    pub meaning :
        ((outcome ≡ ok tt) × ((x : ℕ) → type_at post' x ≡ carved x (type_at post x)))
        ⊎ (outcome ≡ err buffer_too_small)

  -- Nothing is left to carve.
  stop-Carves :
      (lo : ℕ) (pre post room : List EfiMemoryDescriptor) {r : Result (Unit {0}) × PageAllocator}
      → IsMap lo post
      → r ≡ (ok tt, packed (pre ++ post) room)
      → ((x : ℕ) → type_at post x ≡ carved x (type_at post x))
      → Carves lo pre post room r
  stop-Carves lo pre post room m e same = record {
    outcome = ok tt;
    post' = post;
    room' = room;
    runs = e;
    size = refl;
    map = m;
    meaning = inl (refl, same);
  }

  full-Carves :
      (lo : ℕ) (pre post room : List EfiMemoryDescriptor) {r : Result (Unit {0}) × PageAllocator}
      → IsMap lo post
      → r ≡ (err buffer_too_small, packed (pre ++ post) room)
      → Carves lo pre post room r
  full-Carves lo pre post room m e = record {
    outcome = err buffer_too_small;
    post' = post;
    room' = room;
    runs = e;
    size = refl;
    map = m;
    meaning = inr refl;
  }

  -- The first descriptor stays.
  skip-Carves :
      (lo : ℕ) (pre rest room : List EfiMemoryDescriptor) (d : EfiMemoryDescriptor)
      {r r' : Result (Unit {0}) × PageAllocator}
      → IsMap lo (d ∷ rest)
      → r ≡ r'
      → ((x : ℕ) → covers d x ≡ true → carved x (some d.type) ≡ some d.type)
      → Carves (end_of d) (pre ++ d ∷ []) rest room r'
      → Carves lo pre (d ∷ rest) room r
  skip-Carves lo pre rest room d m e kept c = record {
    outcome = c.outcome;
    post' = d ∷ c.post';
    room' = c.room';
    runs =
        e
        ∙ c.runs
        ∙ ap (λ (v : List EfiMemoryDescriptor). (c.outcome, packed v c.room'))
            (append_assoc pre (d ∷ []) c.post');
    size = omega (arith, c.size);
    map = (m.0, m.1, c.map);
    meaning = elim c.meaning [
      | inl (o, types) ↦ inl (o, λ x. ground (arith, kept x, types x))
      | inr o ↦ inr o
    ];
  }

  module _ (lo : ℕ) (pre rest room : List EfiMemoryDescriptor) (d : EfiMemoryDescriptor)
      (m : IsMap lo (d ∷ rest)) (h : start < end_of d) (k : d.physical_start < end)
      (nonempty : start < end) (free : carvable d.type ≡ true) (page : start % 4096 ≡ 0)
      (page' : end % 4096 ≡ 0) where
    abbrev memory : ℕ
    memory = first_page d start

    abbrev pages : ℕ
    pages = shared_pages d start end

    abbrev before : List EfiMemoryDescriptor
    before = part d d.physical_start d.virtual_start (pages_before d memory pages)

    abbrev after : List EfiMemoryDescriptor
    after = part d (memory + pages * 4096) 0 (pages_after d memory pages)

    abbrev passed : List EfiMemoryDescriptor
    passed = pre ++ (before ++ middle d memory pages type ∷ [])

    w : IsWithin d memory pages
    w = shared-IsWithin carvable start end type 0 pre rest room d m.1 h k nonempty free page page'

    shared_end : memory + pages * 4096 ≡ min (end_of d) end
    shared_end = ground (arith, m.1.aligned)

    regroup :
        (later : List EfiMemoryDescriptor)
        → passed ++ later ≡ pre ++ (before ++ middle d memory pages type ∷ later)
    regroup later =
        append_assoc pre (before ++ middle d memory pages type ∷ []) later
        ∙ ap (λ (v : List EfiMemoryDescriptor). pre ++ v)
            (append_assoc before (middle d memory pages type ∷ []) later)

    type_at-carved :
        (later : List EfiMemoryDescriptor) (x : ℕ)
        → IsMap (memory + pages * 4096) later
        → type_at later x ≡ carved x (type_at (after ++ rest) x)
        → type_at (before ++ middle d memory pages type ∷ later) x ≡ carved x (type_at (d ∷ rest) x)
    unfolding part
    type_at-carved later x n same = ground (
      arith,
      same,
      shared_end,
      before_exact d memory pages type w rest,
      after_exact d memory pages type w rest,
      type_at-below (end_of d) x rest m.2,
      type_at-below (memory + pages * 4096) x later n,
    )

    pieces-length : length (pieces d memory pages type) ≡ length before + 1 + length after
    unfolding pieces
    pieces-length = omega (arith, length-append before (middle d memory pages type ∷ after))

    passed-length : length passed ≡ next_index d memory pages (length pre)
    unfolding part
    passed-length = ground (
      arith,
      length-append pre (before ++ middle d memory pages type ∷ []),
      length-append before (middle d memory pages type ∷ []),
    )

    -- The state after a round, at the descriptors that the loop has not seen.
    behind : pre ++ (pieces d memory pages type ++ rest) ≡ passed ++ (after ++ rest)
    unfolding pieces
    behind =
        ap (λ (v : List EfiMemoryDescriptor). pre ++ v)
          (append_assoc before (middle d memory pages type ∷ after) rest)
        ∙ sym (regroup (after ++ rest))

    later-IsMap : IsMap (memory + pages * 4096) (after ++ rest)
    later-IsMap = after-IsMap d memory pages type w rest m.2

    -- The shared pages get the new type.
    carve-Carves :
        {r r' : Result (Unit {0}) × PageAllocator}
        → length (pieces d memory pages type) - 1 ≤ length room
        → r ≡ r'
        → Carves
            (memory + pages * 4096)
            passed
            (after ++ rest)
            (drop (length (pieces d memory pages type) - 1) room)
            r'
        → Carves lo pre (d ∷ rest) room r
    carve-Carves fits e c = record {
      outcome = c.outcome;
      post' = before ++ middle d memory pages type ∷ c.post';
      room' = c.room';
      runs =
          e
          ∙ c.runs
          ∙ ap (λ (v : List EfiMemoryDescriptor). (c.outcome, packed v c.room')) (regroup c.post');
      size = omega (
        arith,
        c.size,
        fits,
        pieces-length,
        length-append before (middle d memory pages type ∷ c.post'),
        length-append after rest,
        length-drop (length (pieces d memory pages type) - 1) room,
      );
      map = before-IsMap d memory pages type w rest lo c.post' m.0 c.map;
      meaning = elim c.meaning [
        | inl (o, types) ↦ inl (o, λ x. type_at-carved c.post' x c.map (types x))
        | inr o ↦ inr o
      ];
    }

    smaller :
        (fuel : ℕ)
        → length (d ∷ rest) + length room < suc fuel
        → length (pieces d memory pages type) - 1 ≤ length room
        → length (after ++ rest) + length (drop (length (pieces d memory pages type) - 1) room)
          < fuel
    smaller fuel enough fits = omega (
      arith,
      pieces-length,
      length-append after rest,
      length-drop (length (pieces d memory pages type) - 1) room,
    )

    -- The round that carves `d`, from what the loop does next where the buffer has room.
    carve_round :
        (fuel : ℕ)
        → (length (pieces d memory pages type) - 1 ≤ length room
            → Carves
                (memory + pages * 4096)
                passed
                (after ++ rest)
                (drop (length (pieces d memory pages type) - 1) room)
                (carve_loop carvable fuel start end type (length passed) (
                  packed
                    (passed ++ (after ++ rest))
                    (drop (length (pieces d memory pages type) - 1) room))))
        → Carves lo pre (d ∷ rest) room (
            carve_loop carvable
              (suc fuel)
              start
              end
              type
              (length pre)
              (packed (pre ++ d ∷ rest) room))
    carve_round fuel next = elim (dec_lt (length room) (length (pieces d memory pages type) - 1)) [
      | yes few ↦ full-Carves lo pre (d ∷ rest) room m (
          round-full carvable start end type fuel pre rest room d m.1 h k nonempty free page page'
            few)
      | no fits ↦
          carve-Carves (omega arith)
            (round-carved carvable start end type fuel pre rest room d m.1 h k nonempty free page
                page' (omega arith)
              ∙ ap
                  (λ (v : List EfiMemoryDescriptor).
                    carve_loop carvable fuel start end type (next_index d memory pages (length pre))
                      (packed v (drop (length (pieces d memory pages type) - 1) room)))
                  behind
              ∙ ap
                  (λ (i : ℕ). carve_loop carvable fuel start end type i (
                    packed (passed ++ (after ++ rest))
                      (drop (length (pieces d memory pages type) - 1) room)))
                  (sym passed-length))
            (next (omega arith))
    ]

  at_end :
      (fuel : ℕ) (pre room : List EfiMemoryDescriptor)
      → carve_loop carvable (suc fuel) start end type (length pre) (packed (pre ++ []) room)
        ≡ (ok tt, packed (pre ++ []) room)
  unfolding carve_loop
  at_end fuel pre room =
      let last : ltb (length pre) (length (pre ++ [])) ≡ false =
        ground (arith, length-append pre []) in
      rw last

  carved-outside : (x : ℕ) (o : Option ℕ) → (leb start x && ltb x end) ≡ false → o ≡ carved x o
  carved-outside x none h = refl
  carved-outside x (some t) h = ground (arith, h)

  past_range :
      (lo : ℕ) (d : EfiMemoryDescriptor) (rest : List EfiMemoryDescriptor)
      → IsMap lo (d ∷ rest)
      → end ≤ d.physical_start
      → (x : ℕ) → type_at (d ∷ rest) x ≡ carved x (type_at (d ∷ rest) x)
  past_range lo d rest m past x = elim (dec_lt x d.physical_start) [
    | yes low ↦ rw (type_at-below d.physical_start x (d ∷ rest) (omega arith, m.1, m.2) low)
    | no high ↦ carved-outside x (type_at (d ∷ rest) x) (ground arith)
  ]

  module _ (nonempty : start < end) (page : start % 4096 ≡ 0) (page' : end % 4096 ≡ 0) where
    -- The loop carves the descriptors that it has not seen, on fuel for each place in the buffer.
    pub carve_loop-Carves :
        (fuel lo : ℕ) (pre post room : List EfiMemoryDescriptor)
        → length post + length room < fuel
        → IsMap lo post
        → Carves lo pre post room
            (carve_loop carvable fuel start end type (length pre) (packed (pre ++ post) room))
    carve_loop-Carves zero lo pre post room enough m = absurd (omega arith)
    carve_loop-Carves (suc fuel) lo pre [] room enough m =
        stop-Carves lo pre [] room m (at_end fuel pre room) (λ x. refl)
    carve_loop-Carves (suc fuel) lo pre (d ∷ rest) room enough m = elim (dec_le (end_of d) start) [
      | yes low ↦
          skip-Carves lo pre rest room d m
            (round-before carvable start end type fuel pre rest room d m.1 low)
            (λ x c. ground (arith, c, low))
            (carve_loop-Carves fuel (end_of d) (pre ++ d ∷ []) rest room (omega arith) m.2)
      | no h ↦ elim (dec_le end d.physical_start) [
        | yes past ↦
            stop-Carves lo pre (d ∷ rest) room m
              (round-past carvable start end type fuel pre rest room d m.1 (omega arith) past)
              (past_range lo d rest m past)
        | no k ↦ elim (Bool-cases (carvable d.type)) [
          | inr kept ↦
              skip-Carves lo pre rest room d m
                (round-kept carvable start end type fuel pre rest room d m.1 (omega arith)
                  (omega arith) kept)
                (λ x c. ground (arith, kept))
                (carve_loop-Carves fuel (end_of d) (pre ++ d ∷ []) rest room (omega arith) m.2)
          | inl free ↦
              carve_round lo pre rest room d m (omega arith) (omega arith) nonempty free page page'
                fuel
                (λ fits.
                  carve_loop-Carves fuel _
                    (passed lo pre rest room d m (omega arith) (omega arith) nonempty free page
                      page')
                    _ _
                    (smaller lo pre rest room d m (omega arith) (omega arith) nonempty free page
                      page' fuel enough fits)
                    (later-IsMap lo pre rest room d m (omega arith) (omega arith) nonempty free page
                      page'))
        ]
      ]
    ]
