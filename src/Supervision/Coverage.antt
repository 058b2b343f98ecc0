-- ===== src/Supervision/Coverage.antt =====
-- What the rota guarantees: that the break blocks are answered one by one, and that the two entry points
-- agree.
use klassenzeit.Base.{
  ℕ, ◌≡◌, refl, ap, sym, true, false, List, [], ◌∷◌, arith, length, length-filter-sort_by,
  append_later, append_nil, ◌++◌, ◌∙◌, ◌⊎◌, inl, inr, some, Bool, subst, filter, map, nat_eq,
  pair_eq,
}
use klassenzeit.Types.{
  SupervisionAssignment, Violation, ViolationKind, Reason, TimeBlock, Problem, Placement,
}
use klassenzeit.Supervision.{
  Slot, Occupancy, Rota, least_loaded, eligible_at, serve, assign, serve_all, rota, occupancy,
  break_slots, teachers_sorted, empty_rota, spread, compute_supervision_full,
  compute_supervision_spread, gap_violation, is_break, slot_le,
}

serve_all-counts :
    (occ : Occupancy) (teachers : List ℕ) (slots : List Slot) (r s : Rota)
    → r.counts ≡ s.counts
    → (serve_all true occ teachers slots r).counts ≡ (serve_all false occ teachers slots s).counts
unfolding serve_all
serve_all-counts occ teachers [] r s e = e
serve_all-counts occ teachers (slot ∷ slots) r s e =
    serve_all-counts occ teachers slots (serve true slot (eligible_at occ teachers slot) r)
      (serve false slot (eligible_at occ teachers slot) s)
      (serve-counts slot (eligible_at occ teachers slot))
  where
    serve-counts :
        (slot : Slot) (ts : List ℕ) → (serve true slot ts r).counts ≡ (serve false slot ts s).counts
    serve-counts slot [] = unfold serve in e
    serve-counts slot (t ∷ ts) = unfold serve assign in rw e refl

-- The count-only entry point and the full one compute the same spread.
pub spread-eq-full :
    (problem : Problem) (placements : List Placement)
    → compute_supervision_spread problem placements
      ≡ (compute_supervision_full problem placements).2
unfolding compute_supervision_spread compute_supervision_full rota
spread-eq-full problem placements = sym (
    ap spread (
      serve_all-counts (occupancy problem placements) (teachers_sorted problem)
        (break_slots problem) empty_rota empty_rota refl))

-- The assignments and the violations answer the slots one by one, in order: each slot takes the next
-- assignment, which names its block, or the next violation, a gap with its day and position; at the end
-- none is left over.
abbrev pub Answers : List Slot → List SupervisionAssignment → List Violation → Type 0
Answers [] as' vs = (as' ≡ []) × (vs ≡ [])
Answers ((day, position, id) ∷ slots) as' vs =
    ((a : SupervisionAssignment) × (later : List SupervisionAssignment) × (as' ≡ a ∷ later)
      × (a.time_block_id ≡ id)
      × Answers slots later vs)
    ⊎ ((v : Violation) × (later : List Violation) × (vs ≡ v ∷ later)
        × (v.kind ≡ ViolationKind.supervision_gap)
        × (v.reason ≡ some (Reason.no_candidates day position))
        × Answers slots as' later)

-- What serving adds to the rota.
abbrev Adds : List Slot → Rota → Rota → Type 0
Adds slots r r' =
    (as' : List SupervisionAssignment) × (vs : List Violation) × (r'.assignments
      ≡ r.assignments ++ as')
    × (r'.violations ≡ r.violations ++ vs)
    × Answers slots as' vs

serve-Adds :
    (slot : Slot) (ts : List ℕ) (slots : List Slot) (r r' : Rota)
    → Adds slots (serve true slot ts r) r'
    → Adds (slot ∷ slots) r r'
unfolding serve assign gap_violation
serve-Adds (day, position, id) [] slots r r' (as', vs, assigned, reported, answers) =
    let v = gap_violation (day, position, id) in
    (
      as',
      v ∷ vs,
      assigned,
      reported ∙ append_later r.violations v vs,
      inr (v, vs, refl, refl, refl, answers),
    )
serve-Adds (day, position, id) (t ∷ ts) slots r r' (as', vs, assigned, reported, answers) =
    let a : SupervisionAssignment = record {
      time_block_id = id;
      teacher_id = least_loaded r.counts t ts;
    } in
    (
      a ∷ as',
      vs,
      assigned ∙ append_later r.assignments a as',
      reported,
      inl (a, as', refl, refl, answers),
    )

serve_all-Adds :
    (occ : Occupancy) (teachers : List ℕ) (slots : List Slot) (r : Rota)
    → Adds slots r (serve_all true occ teachers slots r)
unfolding serve_all
serve_all-Adds occ teachers [] r =
    ([], [], sym (append_nil r.assignments), sym (append_nil r.violations), (refl, refl))
serve_all-Adds occ teachers (slot ∷ slots) r =
    let served = serve true slot (eligible_at occ teachers slot) r in
    serve-Adds slot (eligible_at occ teachers slot) slots r
      (serve_all true occ teachers slots served) (serve_all-Adds occ teachers slots served)

abbrev pub slot_of : TimeBlock → Slot
slot_of tb = (tb.day_of_week, tb.position, tb.id)

length-filter-map :
    {A B : Type 0} (p : B → Bool) (f : A → B) (xs : List A)
    → length (filter p (map f xs)) ≡ length (filter (λ x. p (f x)) xs)
length-filter-map p f [] = refl
length-filter-map p f (x ∷ xs) = ground (arith, length-filter-map p f xs)

-- The slots are the blocks of kind break, in some order: every test picks as many of these as of those.
abbrev pub AreBreaks : Problem → List Slot → Type 0
AreBreaks problem slots =
    (p : Slot → Bool)
    → length (filter p slots)
      ≡ length (filter (λ tb. p (slot_of tb)) (filter (λ tb. is_break tb.kind) problem.time_blocks))

break_slots-AreBreaks : (problem : Problem) → AreBreaks problem (break_slots problem)
unfolding break_slots
break_slots-AreBreaks problem p =
    let breaks = filter (λ tb. is_break tb.kind) problem.time_blocks in
    length-filter-sort_by slot_le p (map slot_of breaks) ∙ length-filter-map p slot_of breaks

-- The break blocks of the problem, in some order, are answered one by one: each block by one assignment
-- that names it or by one gap violation with its day and position, and there are no other assignments
-- and violations.
pub full-outcomes :
    (problem : Problem) (placements : List Placement)
    → (slots : List Slot) × AreBreaks problem slots
      × Answers slots
          (compute_supervision_full problem placements).0
          (compute_supervision_full problem placements).1
unfolding compute_supervision_full rota
full-outcomes problem placements =
    let (as', vs, assigned, reported, answers) =
      serve_all-Adds (occupancy problem placements) (teachers_sorted problem) (break_slots problem)
        empty_rota in
    (
      break_slots problem,
      break_slots-AreBreaks problem,
      subst (λ as'. Answers (break_slots problem) as' (rota true problem placements).violations)
          (sym assigned) (subst (Answers (break_slots problem) as') (sym reported) answers),
    )
