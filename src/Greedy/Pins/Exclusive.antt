-- ===== src/Greedy/Pins/Exclusive.antt =====
-- The seeds of `validate_pins` are known, and no two of them share a room at a time.
use klassenzeit.Base.{
  ℕ, ◌+◌, ◌≡◌, refl, Bool, true, false, ◌&&◌, some, List, [], ◌∷◌, ◌++◌, ◌==◌, if◌then◌else◌, All,
  All-append, HashMap, HashSet, get, get_or_default, insert, update, contains, contains-add, add,
  nat_eq, pair_eq, arith, Bool-cases, Option-cases, inl, inr, subst, some-inj,
}
use klassenzeit.Types.{Lesson, TimeBlock, Placement, PinnedPlacement, PinKind, hard, soft}
use klassenzeit.Greedy.Pins.{has_key, Sorted, sort_soft, sort_hard, sort_pin, sort_pins}

-- How many pins, pins of the lessons and placements are in a room at a time.
abbrev pub in_slot : ℕ × ℕ → PinnedPlacement → Bool
in_slot j pin = (pin.time_block_id == j.0) && (pin.room_id == j.1)

abbrev pub count_pins : ℕ × ℕ → List PinnedPlacement → ℕ
count_pins j [] = 0
count_pins j (pin ∷ pins) = (if in_slot j pin then 1 else 0) + count_pins j pins

abbrev pub count_all : ℕ × ℕ → HashMap ℕ (List PinnedPlacement) → ℕ
count_all j [] = 0
count_all j ((k, pins) ∷ m) = count_pins j pins + count_all j m

abbrev pub count_seeds : ℕ × ℕ → List Placement → ℕ
count_seeds j [] = 0
count_seeds j (p ∷ ps) =
    (if (p.time_block_id == j.0) && (p.room_id == j.1) then 1 else 0) + count_seeds j ps

count_pins-snoc :
    (j : ℕ × ℕ) (pins : List PinnedPlacement) (pin : PinnedPlacement)
    → count_pins j (pins ++ (pin ∷ [])) ≡ count_pins j pins + (if in_slot j pin then 1 else 0)
count_pins-snoc j [] pin = ground arith
count_pins-snoc j (x ∷ pins) pin = omega (arith, count_pins-snoc j pins pin)

pub count_seeds-append :
    (j : ℕ × ℕ) (ps qs : List Placement)
    → count_seeds j (ps ++ qs) ≡ count_seeds j ps + count_seeds j qs
count_seeds-append j [] qs = omega arith
count_seeds-append j (p ∷ ps) qs = omega (arith, count_seeds-append j ps qs)

count_all-insert :
    (j : ℕ × ℕ) (k : ℕ) (pins : List PinnedPlacement) (m : HashMap ℕ (List PinnedPlacement))
    → count_all j (insert k pins m) + count_pins j (get_or_default [] m k)
      ≡ count_all j m + count_pins j pins
unfolding insert get_or_default get
count_all-insert j k pins [] = omega arith
count_all-insert j k pins ((i, old) ∷ m) = elim (Bool-cases (i == k)) [
  | inl e ↦ rw (e, get_or_default) (omega arith)
  | inr e ↦ rw (e, get_or_default) (omega (arith, count_all-insert j k pins m))
]

module _ {V : Type 0} (P : ℕ × V → Type 0) where
  All-insert : (k : ℕ) (v : V) (m : HashMap ℕ V) → All P m → P (k, v) → All P (insert k v m)
  unfolding insert
  All-insert k v [] h new = (new, tt)
  All-insert k v ((i, old) ∷ m) h new = elim (Bool-cases (i == k)) [
    | inl e ↦ let same : k ≡ i = ground (arith, e) in rw e (subst (λ i. P (i, v)) same new, h.1)
    | inr e ↦ rw e (h.0, All-insert k v m h.1 new)
  ]

  All-get : (k : ℕ) (v : V) (m : HashMap ℕ V) → All P m → get m k ≡ some v → P (k, v)
  unfolding get
  All-get k v [] h found = cc
  All-get k v ((i, old) ∷ m) h found = elim (Bool-cases (i == k)) [
    | inl e ↦
        let same : i ≡ k = ground (arith, e) in
        let same_value : old ≡ v = some-inj (rw (e, get) at found) in
        subst (λ v. P (k, v)) same_value (subst (λ i. P (i, old)) same h.0)
    | inr e ↦ All-get k v m h.1 (rw (e, get) at found)
  ]

module _ (lessons : HashMap ℕ Lesson) (blocks : HashMap ℕ TimeBlock) where
  -- The pin is of the lesson, and its lesson and time block are known.
  abbrev pub IsGood : ℕ → PinnedPlacement → Type 0
  IsGood k pin =
      (pin.lesson_id ≡ k)
      × (has_key lessons pin.lesson_id ≡ true)
      × (has_key blocks pin.time_block_id ≡ true)

  abbrev pub GoodEntry : ℕ × List PinnedPlacement → Type 0
  GoodEntry entry = (has_key lessons entry.0 ≡ true) × All (IsGood entry.0) entry.1

  -- The surviving pins are good, and hold each taken slot once.
  abbrev pub IsSorted : Sorted → Type 0
  IsSorted now =
      All GoodEntry now.surviving_per_lesson
      × ((j : ℕ × ℕ)
          → count_all j now.surviving_per_lesson ≡ (if contains now.taken_slots j then 1 else 0))

  old_pins :
      (k : ℕ) (m : HashMap ℕ (List PinnedPlacement))
      → All GoodEntry m
      → All (IsGood k) (get_or_default [] m k)
  unfolding get_or_default
  old_pins k m h = elim (Option-cases (get m k)) [
    | inl new ↦ rw (new, get_or_default) tt
    | inr (pins, found) ↦ rw (found, get_or_default) ((All-get GoodEntry k pins m h found).1)
  ]

  slot_taken :
      (pin : PinnedPlacement) (taken : HashSet (ℕ × ℕ)) (total : ℕ) (j : ℕ × ℕ)
      → contains taken (pin.time_block_id, pin.room_id) ≡ false
      → total ≡ (if contains taken j then 1 else 0)
      → total + (if in_slot j pin then 1 else 0)
        ≡ (if contains (add (pin.time_block_id, pin.room_id) taken) j then 1 else 0)
  slot_taken pin taken total j free h =
      rw (contains-add (pin.time_block_id, pin.room_id) j taken)
        (elim (Bool-cases (in_slot j pin)) [
          | inr e ↦ rw e (ground (arith, h))
          | inl e ↦
              let same = (pair_eq.beq_iff (pin.time_block_id, pin.room_id) j).0 e in
              let none_yet : contains taken j ≡ false =
                subst (λ j. contains taken j ≡ false) same free in
              rw e (ground (arith, h, none_yet))
        ])

  survives :
      (pin : PinnedPlacement) (now : Sorted)
      → has_key lessons pin.lesson_id ≡ true
      → has_key blocks pin.time_block_id ≡ true
      → contains now.taken_slots (pin.time_block_id, pin.room_id) ≡ false
      → IsSorted now
      → IsSorted (record now {
        taken_slots = add (pin.time_block_id, pin.room_id) now.taken_slots;
        surviving_per_lesson =
            update pin.lesson_id [] (λ pins. pins ++ (pin ∷ [])) now.surviving_per_lesson;
      })
  unfolding update get_or_default
  survives pin now known_l known_b free (good, counts) =
      let m = now.surviving_per_lesson in
      let old = get_or_default [] m pin.lesson_id in
      (
        All-insert GoodEntry pin.lesson_id (old ++ (pin ∷ [])) m good (
          known_l,
          All-append (IsGood pin.lesson_id) old (pin ∷ []) (old_pins pin.lesson_id m good)
              ((refl, known_l, known_b), tt),
        ),
        λ j. omega (
          arith,
          count_all-insert j pin.lesson_id (old ++ (pin ∷ [])) m,
          count_pins-snoc j old pin,
          slot_taken pin now.taken_slots (count_all j m) j free (counts j),
        ),
      )

  sort_soft-IsSorted :
      (pin : PinnedPlacement) (now : Sorted)
      → IsSorted now
      → IsSorted (sort_soft lessons blocks pin now)
  sort_soft-IsSorted pin now h = elim (Bool-cases (has_key lessons pin.lesson_id)) [
    | inr e ↦ rw e h
    | inl e ↦ elim (Bool-cases (has_key blocks pin.time_block_id)) [
      | inr e' ↦ rw (e, e') h
      | inl e' ↦ rw (e, e') h
    ]
  ]

  sort_hard-IsSorted :
      (rooms : HashSet ℕ) (pin : PinnedPlacement) (now : Sorted)
      → IsSorted now
      → IsSorted (sort_hard lessons blocks rooms pin now)
  sort_hard-IsSorted rooms pin now h = elim (Bool-cases (has_key lessons pin.lesson_id)) [
    | inr e ↦ rw e h
    | inl e ↦ elim (Bool-cases (has_key blocks pin.time_block_id)) [
      | inr e' ↦ rw (e, e') h
      | inl e' ↦ elim (Bool-cases (contains rooms pin.room_id)) [
        | inr e'' ↦ rw (e, e', e'') h
        | inl e'' ↦ elim (Bool-cases (contains now.taken_slots (pin.time_block_id, pin.room_id))) [
          | inl taken ↦ rw (e, e', e'', taken) h
          | inr free ↦ rw (e, e', e'', free) (survives pin now e e' free h)
        ]
      ]
    ]
  ]

  sort_pin-IsSorted :
      (kind : PinKind) (rooms : HashSet ℕ) (pin : PinnedPlacement) (now : Sorted)
      → IsSorted now
      → IsSorted (sort_pin kind lessons blocks rooms pin now)
  sort_pin-IsSorted hard rooms pin now h = sort_hard-IsSorted rooms pin now h
  sort_pin-IsSorted soft rooms pin now h = sort_soft-IsSorted pin now h

  pub sort_pins-IsSorted :
      (rooms : HashSet ℕ) (pins : List PinnedPlacement) (now : Sorted)
      → IsSorted now
      → IsSorted (sort_pins lessons blocks rooms pins now)
  unfolding sort_pins
  sort_pins-IsSorted rooms [] now h = h
  sort_pins-IsSorted rooms (pin ∷ pins) now h =
      sort_pins-IsSorted rooms pins (sort_pin pin.kind lessons blocks rooms pin now)
        (sort_pin-IsSorted pin.kind rooms pin now h)
