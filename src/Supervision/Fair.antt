-- ===== src/Supervision/Fair.antt =====
-- The rota gives a break to a least loaded teacher, counted on the assignments made before it.
use klassenzeit.Base.{
  ℕ, ◌+◌, ◌-◌, ◌≤◌, ◌<◌, ◌≡◌, sym, subst, ◌∙◌, length, length-append, append_later, append_nil, map,
  if◌then◌else◌, leb, add_u32, ==_iff, In-filter_back, In-sort_by_back, refl, true, false, List, [],
  ◌∷◌, ◌++◌, arith, ◌==◌, All, All-of, All-In, In, ◌⊎◌, nat_eq, pair_eq, get_or_default,
  get_or_default-update,
}
use klassenzeit.Types.{Problem, Placement, SupervisionAssignment}
use klassenzeit.Supervision.{
  Slot, Rota, load, least_loaded, is_eligible, eligible_at, serve, assign, serve_all, rota,
  occupied_before, occupied_after, occupancy, break_slots, teachers_sorted, empty_rota,
  compute_supervision_full,
}
use klassenzeit.Supervision.Eligible.{teaches_at, occupied-occupancy, least_loaded-le}

-- The teacher is free at the slot and teaches right before or right after it.
abbrev pub CanServe : Problem → List Placement → Slot → ℕ → Type 0
CanServe problem placements (day, position, id) t =
    (teaches_at problem placements day position t ≡ false)
    × (((1 ≤ position) × (teaches_at problem placements day (position - 1) t ≡ true))
        ⊎ ((position < 255) × (teaches_at problem placements day (position + 1) t ≡ true)))

CanServe-is_eligible :
    (problem : Problem) (placements : List Placement) (day position id t : ℕ)
    → CanServe problem placements (day, position, id) t
    → is_eligible (occupancy problem placements) day position t ≡ true
unfolding is_eligible occupied_before occupied_after
CanServe-is_eligible problem placements day position id t can = ground (
  arith,
  occupied-occupancy problem placements day position t,
  occupied-occupancy problem placements day (position - 1) t,
  occupied-occupancy problem placements day (position + 1) t,
)

-- The number of the assignments that the teacher has.
abbrev pub times : List SupervisionAssignment → ℕ → ℕ
times [] t = 0
times (a ∷ as') t = (if a.teacher_id == t then 1 else 0) + times as' t

times-snoc :
    (as' : List SupervisionAssignment) (a : SupervisionAssignment) (t : ℕ)
    → times (as' ++ (a ∷ [])) t ≡ times as' t + (if a.teacher_id == t then 1 else 0)
times-snoc [] a t = omega arith
times-snoc (x ∷ as') a t = omega (arith, times-snoc as' a t)

times-le : (as' : List SupervisionAssignment) (t : ℕ) → times as' t ≤ length as'
times-le [] t = omega arith
times-le (a ∷ as') t = ground (arith, times-le as' t)

module _ (problem : Problem) (placements : List Placement) where
  -- The assignment is to one of the break slots, and before it no teacher of the problem who could serve
  -- there had fewer assignments than the one who got it.
  abbrev pub IsLeast : List SupervisionAssignment → SupervisionAssignment → Type 0
  IsLeast earlier a =
      (slot : Slot) × In slot (break_slots problem)
      × (a.time_block_id ≡ slot.2)
      × ((u : ℕ)
          → In u (map (λ t. t.id) problem.teachers)
          → CanServe problem placements slot u
          → times earlier a.teacher_id ≤ times earlier u)

  -- Each assignment was to a least loaded teacher when it was made.
  abbrev pub IsFair : List SupervisionAssignment → List SupervisionAssignment → Type 0
  IsFair earlier [] = Unit
  IsFair earlier (a ∷ as') = IsLeast earlier a × IsFair (earlier ++ (a ∷ [])) as'

  -- The counts are those of the assignments.
  abbrev IsCounted : Rota → Type 0
  IsCounted r = (t : ℕ) → load r.counts t ≡ times r.assignments t

  abbrev MakesFair : Rota → Rota → Type 0
  MakesFair r r' =
      (as' : List SupervisionAssignment) × (r'.assignments ≡ r.assignments ++ as')
      × IsFair r.assignments as'

  assign-IsCounted :
      (slot : Slot) (chosen : ℕ) (r : Rota)
      → length r.assignments < 4294967295
      → IsCounted r
      → IsCounted (assign true slot chosen r)
  unfolding assign
  assign-IsCounted (day, position, id) chosen r fits counted t = ground (
    arith,
    get_or_default-update chosen t 0 (λ c. add_u32 c 1) r.counts,
    times-snoc r.assignments (record { time_block_id = id; teacher_id = chosen }) t,
    times-le r.assignments t,
    counted t,
    counted chosen,
    ==_iff chosen t,
  )

  least_loaded-IsLeast :
      (day position id : ℕ) (r : Rota) (t : ℕ) (ts : List ℕ)
      → In (day, position, id) (break_slots problem)
      → ((u : ℕ)
          → In u (map (λ t. t.id) problem.teachers)
          → CanServe problem placements (day, position, id) u
          → In u (t ∷ ts))
      → IsCounted r
      → IsLeast r.assignments
          (record { time_block_id = id; teacher_id = least_loaded r.counts t ts })
  least_loaded-IsLeast day position id r t ts i listed counted = (
    (day, position, id),
    i,
    refl,
    λ u j can.
        let c = least_loaded r.counts t ts in
        let below = least_loaded-le r.counts t ts (load r.counts c) refl in
        rw (← counted c, ← counted u)
          (All-In (λ u. load r.counts c ≤ load r.counts u) (t ∷ ts) below (listed u j can)),
  )

  serve-MakesFair :
      (slot : Slot) (ts : List ℕ) (r r' : Rota)
      → In slot (break_slots problem)
      → ((u : ℕ)
          → In u (map (λ t. t.id) problem.teachers)
          → CanServe problem placements slot u
          → In u ts)
      → IsCounted r
      → MakesFair (serve true slot ts r) r'
      → MakesFair r r'
  unfolding serve assign
  serve-MakesFair slot [] r r' i listed counted made = made
  serve-MakesFair (day, position, id) (t ∷ ts) r r' i listed counted (as', added, fair) =
      let a : SupervisionAssignment = record {
        time_block_id = id;
        teacher_id = least_loaded r.counts t ts;
      } in
      (
        a ∷ as',
        added ∙ append_later r.assignments a as',
        (least_loaded-IsLeast day position id r t ts i listed counted, fair),
      )

  serve-IsCounted :
      (slot : Slot) (ts : List ℕ) (r : Rota)
      → length r.assignments < 4294967295
      → IsCounted r
      → IsCounted (serve true slot ts r)
        × (length (serve true slot ts r).assignments ≤ length r.assignments + 1)
  unfolding serve
  serve-IsCounted slot [] r fits counted = (counted, omega arith)
  serve-IsCounted (day, position, id) (t ∷ ts) r fits counted = (
    assign-IsCounted (day, position, id) (least_loaded r.counts t ts) r fits counted,
    unfold assign in
        omega (
          arith,
          length-append r.assignments
              (record { time_block_id = id; teacher_id = least_loaded r.counts t ts } ∷ []),
        ),
  )

  eligible_listed :
      (slot : Slot) (u : ℕ)
      → In u (map (λ t. t.id) problem.teachers)
      → CanServe problem placements slot u
      → In u (eligible_at (occupancy problem placements) (teachers_sorted problem) slot)
  unfolding teachers_sorted
  eligible_listed (day, position, id) u i can =
      In-filter_back _ (teachers_sorted problem)
        (In-sort_by_back leb (map (λ t. t.id) problem.teachers) i)
        (CanServe-is_eligible problem placements day position id u can)

  serve_all-MakesFair :
      (slots : List Slot) (r : Rota)
      → All (λ s. In s (break_slots problem)) slots
      → length r.assignments + length slots ≤ 4294967295
      → IsCounted r
      → MakesFair r
          (serve_all true (occupancy problem placements) (teachers_sorted problem) slots r)
  unfolding serve_all
  serve_all-MakesFair [] r i fits counted = ([], sym (append_nil r.assignments), tt)
  serve_all-MakesFair (slot ∷ slots) r i fits counted =
      let ts = eligible_at (occupancy problem placements) (teachers_sorted problem) slot in
      let served = serve true slot ts r in
      let (counted', grown) = serve-IsCounted slot ts r (omega arith) counted in
      serve-MakesFair slot ts r
        (serve_all true (occupancy problem placements) (teachers_sorted problem) slots served) i.0
        (eligible_listed slot) counted (serve_all-MakesFair slots served i.1 (omega arith) counted')

-- With fewer than 2 ^ 32 break blocks, every assignment of the rota is for a break slot and goes to a
-- teacher who has no more of the earlier assignments than any other teacher of the problem who is free at
-- the slot and teaches at the position before it or, below position 255, after it.
pub full-IsFair :
    (problem : Problem) (placements : List Placement)
    → length (break_slots problem) ≤ 4294967295
    → IsFair problem placements [] (compute_supervision_full problem placements).0
unfolding compute_supervision_full rota
full-IsFair problem placements fits =
    let (as', added, fair) =
      serve_all-MakesFair problem placements (break_slots problem) empty_rota
        (All-of (λ s. In s (break_slots problem)) (break_slots problem) (λ s i. i)) (omega arith)
        (λ t. unfold get_or_default in refl) in
    subst (IsFair problem placements []) (sym added) fair
