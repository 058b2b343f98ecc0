-- ===== src/Supervision/Eligible.antt =====
-- Who is put on the rota, stated over the placements: nobody who teaches during the break, only
-- teachers with a lesson right before or right after it.
use klassenzeit.Base.{
  ℕ, ◌+◌, ◌-◌, ◌≤◌, ◌≡◌, refl, Bool, true, false, ◌&&◌, ◌||◌, Option, none, some, List, [], ◌∷◌,
  arith, ◌==◌, All, All-append, All-of, All-In, In, here, there, In-filter, Bool-cases, inl, inr,
  ◌⊎◌, HashMap, get, update, contains, contains-add, add, nat_eq, pair_eq, get_or_default,
  get_or_default-update, any, Option-cases,
}
use klassenzeit.Types.{Problem, Placement, SupervisionAssignment}
use klassenzeit.Supervision.{
  Slot, Occupancy, Counts, Rota, load, key_lt, least_loaded, is_eligible, eligible_at, serve,
  assign, serve_all, rota, occupied, occupied_before, occupied_after, occupy, occupancy,
  tb_position, break_slots, teachers_sorted, empty_rota, compute_supervision_full,
}

abbrev pub stands_at : Option (ℕ × ℕ) → ℕ → ℕ → Bool
stands_at none day position = false
stands_at (some (d, p)) day position = (d == day) && (p == position)

-- Some placement puts the teacher into a block of this day and position.
unfoldable pub teaches_at : Problem → List Placement → ℕ → ℕ → ℕ → Bool
unfolding get
teaches_at problem placements day position t =
    any
      (λ pl.
        (pl.teacher_id == t) && stands_at (get (tb_position problem) pl.time_block_id) day position)
      placements

occupied_lem :
    (occ : Occupancy) (day position t : ℕ)
    → occupied occ day position t ≡ contains (get_or_default [] occ (day, position)) t
unfolding occupied get_or_default contains
occupied_lem occ day position t = ground arith

occupied-update :
    (occ : Occupancy) (slot : ℕ × ℕ) (day position t u : ℕ)
    → occupied (update slot [] (add u) occ) day position t
      ≡ (((u == t) && stands_at (some slot) day position) || occupied occ day position t)
occupied-update occ slot day position t u = ground (
  arith,
  occupied_lem (update slot [] (add u) occ) day position t,
  occupied_lem occ day position t,
  get_or_default-update slot (day, position) [] (add u) occ,
  pair_eq.beq_iff slot (day, position),
  contains-add u t (get_or_default [] occ slot),
)

occupy_lem :
    (positions : HashMap ℕ (ℕ × ℕ)) (pls : List Placement) (occ : Occupancy) (day position t : ℕ)
    → occupied (occupy positions pls occ) day position t ≡ (
        occupied occ day position t
        || any
            (λ pl. (pl.teacher_id == t) && stands_at (get positions pl.time_block_id) day position)
            pls)
unfolding occupy
occupy_lem positions [] occ day position t = ground arith
occupy_lem positions (pl ∷ pls) occ day position t =
    elim (Option-cases (get positions pl.time_block_id)) [
      | inl e ↦ rw (e, occupy) (ground (arith, occupy_lem positions pls occ day position t))
      | inr (slot, e) ↦
          rw (e, occupy)
            (ground (
              arith,
              occupy_lem positions pls (update slot [] (add pl.teacher_id) occ) day position t,
              occupied-update occ slot day position t pl.teacher_id,
            ))
    ]

pub occupied-occupancy :
    (problem : Problem) (placements : List Placement) (day position t : ℕ)
    → occupied (occupancy problem placements) day position t
      ≡ teaches_at problem placements day position t
unfolding occupancy teaches_at
occupied-occupancy problem placements day position t =
    rw (occupy_lem (tb_position problem) placements [] day position t) (unfold occupied in refl)

key_lt-le : (counts : Counts) (t u : ℕ) → key_lt counts t u ≡ true → load counts t ≤ load counts u
unfolding key_lt
key_lt-le counts t u e = ground arith

not_key_lt-le :
    (counts : Counts) (t u : ℕ) → key_lt counts t u ≡ false → load counts u ≤ load counts t
unfolding key_lt
not_key_lt-le counts t u e = ground arith

skip : {a x y : ℕ} {xs : List ℕ} → In a (x ∷ xs) → In a (x ∷ y ∷ xs)
skip here = here
skip (there i) = there (there i)

least_loaded-In :
    (counts : Counts) (best : ℕ) (ts : List ℕ) → In (least_loaded counts best ts) (best ∷ ts)
unfolding least_loaded
least_loaded-In counts best [] = here
least_loaded-In counts best (t ∷ ts) = elim (Bool-cases (key_lt counts t best)) [
  | inl less ↦ rw less (there (least_loaded-In counts t ts))
  | inr more ↦ rw more (skip (least_loaded-In counts best ts))
]

pub least_loaded-le :
    (counts : Counts) (best : ℕ) (ts : List ℕ) (m : ℕ)
    → m ≡ load counts (least_loaded counts best ts)
    → All (λ u. m ≤ load counts u) (best ∷ ts)
unfolding least_loaded
least_loaded-le counts best [] m e = omega arith
least_loaded-le counts best (t ∷ ts) m e = elim (Bool-cases (key_lt counts t best)) [
  | inl less ↦
      let h = least_loaded-le counts t ts m (rw less at e) in
      (omega (arith, key_lt-le counts t best less), h)
  | inr more ↦
      let h = least_loaded-le counts best ts m (rw more at e) in
      (h.0, (omega (arith, not_key_lt-le counts t best more), h.1))
]

-- What an assignment to a slot says.
abbrev pub IsServed : Problem → List Placement → SupervisionAssignment → Slot → Type 0
IsServed problem placements a (day, position, id) =
    (a.time_block_id ≡ id)
    × (teaches_at problem placements day position a.teacher_id ≡ false)
    × (((1 ≤ position) × (teaches_at problem placements day (position - 1) a.teacher_id ≡ true))
        ⊎ (teaches_at problem placements day (position + 1) a.teacher_id ≡ true))

eligible-IsServed :
    (problem : Problem) (placements : List Placement) (day position id t : ℕ)
    → is_eligible (occupancy problem placements) day position t ≡ true
    → IsServed problem placements
        (record { time_block_id = id; teacher_id = t })
        (day, position, id)
unfolding is_eligible occupied_before occupied_after
eligible-IsServed problem placements day position id t e = ground (
  arith,
  occupied-occupancy problem placements day position t,
  occupied-occupancy problem placements day (position - 1) t,
  occupied-occupancy problem placements day (position + 1) t,
)

module _ (problem : Problem) (placements : List Placement) where
  -- The assignment is for one of the problem's break slots, and is right there.
  abbrev pub IsRight : SupervisionAssignment → Type 0
  IsRight a = (s : Slot) × In s (break_slots problem) × IsServed problem placements a s

  serve-IsRight :
      (slot : Slot) (r : Rota) (ts : List ℕ)
      → In slot (break_slots problem)
      → All (λ t. is_eligible (occupancy problem placements) slot.0 slot.1 t ≡ true) ts
      → All IsRight r.assignments
      → All IsRight (serve true slot ts r).assignments
  unfolding serve assign
  serve-IsRight slot r [] i h right = right
  serve-IsRight (day, position, id) r (t ∷ ts) i h right =
      All-append IsRight r.assignments
        (record { time_block_id = id; teacher_id = least_loaded r.counts t ts } ∷ []) right
        (
          (
            (day, position, id),
            i,
            eligible-IsServed problem placements day position id (least_loaded r.counts t ts) (
                All-In (λ u. is_eligible (occupancy problem placements) day position u ≡ true)
                  (t ∷ ts) h (least_loaded-In r.counts t ts)),
          ),
          tt,
        )

  serve_all-IsRight :
      (slots : List Slot) (r : Rota)
      → All (λ s. In s (break_slots problem)) slots
      → All IsRight r.assignments
      → All IsRight
          (serve_all true
            (occupancy problem placements)
            (teachers_sorted problem)
            slots
            r).assignments
  unfolding serve_all
  serve_all-IsRight [] r i right = right
  serve_all-IsRight (slot ∷ slots) r i right =
      serve_all-IsRight slots
        (serve true slot (eligible_at (occupancy problem placements) (teachers_sorted problem) slot)
          r)
        i.1
        (serve-IsRight slot r
          (eligible_at (occupancy problem placements) (teachers_sorted problem) slot) i.0
          (All-of (λ t. is_eligible (occupancy problem placements) slot.0 slot.1 t ≡ true) _
            (λ t j. (In-filter _ (teachers_sorted problem) j).1))
          right)

-- Every assignment of the rota is for a break slot of the problem, and its teacher has no placement
-- at that day and position, and has one at the position before or after it on the same day.
pub full-IsRight :
    (problem : Problem) (placements : List Placement)
    → All (IsRight problem placements) (compute_supervision_full problem placements).0
unfolding compute_supervision_full rota
full-IsRight problem placements =
    serve_all-IsRight problem placements (break_slots problem) empty_rota
      (All-of (λ s. In s (break_slots problem)) (break_slots problem) (λ s i. i)) tt
