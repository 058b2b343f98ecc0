-- ===== src/Greedy/Lesson/Accounted.antt =====
-- Every block of a lesson is placed or reported, and nothing is double-booked.
use klassenzeit.Base.{
  ℕ, zero, suc, ◌*◌, ◌/◌, ◌%◌, ◌≡◌, refl, Bool, true, false, not, Option, none, some, List, [], ◌∷◌,
  ◌++◌, ◌==◌, leb, if◌then◌else◌, map, length, append_nil, any, All, HashMap, get, get_or_default,
  IsDistinct, nat_eq, find, arith, ap, sym, ◌∙◌, subst, inl, inr, Option-cases, some-inj,
}
use klassenzeit.Types.{
  Lesson, Subject, Placement, TimeBlock, ViolationKind, assigned_teacher_id, teacher_over_capacity,
  no_free_time_block, no_suitable_room,
}
use klassenzeit.Greedy.State.{GreedyState}
use klassenzeit.Greedy.Tracks.{Seat, IsSeated, IsApart}
use klassenzeit.Greedy.Seed.{seat_in, rows_of, rows_of-known}
use klassenzeit.Greedy.Place.{Setting, BlockCandidate, window}
use klassenzeit.Greedy.Place.Commit.{placed, drop}
use klassenzeit.Greedy.Place.Apart.{new_row}
use klassenzeit.Greedy.Place.Safe.{ids}
use klassenzeit.Greedy.Place.Outcome.{IsPlaced, try_place_block-IsPlaced}
use klassenzeit.Greedy.Lesson.{
  unplaced_kind, slot_open, Progress, unplaced, place_one, place_blocks, place_lesson,
}
use klassenzeit.Greedy.Lesson.Adds.{
  Adds, Adds-step, placed_ours, none_reported, one_reported, nothing_added,
}

-- The used sets are those of the placements, and no two of them clash.
pub record IsConsistent (lessons : HashMap ℕ Lesson) (blocks : HashMap ℕ TimeBlock)
    (placements : List Placement) (s : GreedyState) : Type 0 where
  pub seated : IsSeated (rows_of lessons blocks placements) s
  pub apart : IsApart (rows_of lessons blocks placements)

seat_in-append :
    (l : Option Lesson) (tb : Option TimeBlock) (p : Placement) (rs qs : List Seat)
    → seat_in l tb p (rs ++ qs) ≡ seat_in l tb p rs ++ qs
seat_in-append none tb p rs qs = refl
seat_in-append (some l) none p rs qs = refl
seat_in-append (some l) (some tb) p rs qs = refl

pub rows_of-append :
    (lessons : HashMap ℕ Lesson) (blocks : HashMap ℕ TimeBlock) (ps qs : List Placement)
    → rows_of lessons blocks (ps ++ qs) ≡ rows_of lessons blocks ps ++ rows_of lessons blocks qs
rows_of-append lessons blocks [] qs = refl
rows_of-append lessons blocks (p ∷ ps) qs =
    ap (seat_in (get lessons p.lesson_id) (get blocks p.time_block_id) p)
      (rows_of-append lessons blocks ps qs)
    ∙ seat_in-append (get lessons p.lesson_id) (get blocks p.time_block_id) p
        (rows_of lessons blocks ps) (rows_of lessons blocks qs)

rows_of-placed :
    (lessons : HashMap ℕ Lesson) (blocks : HashMap ℕ TimeBlock) (lesson' : Lesson)
    (c : BlockCandidate) (tbs : List TimeBlock)
    → get lessons lesson'.id ≡ some lesson'
    → All (λ tb. get blocks tb.id ≡ some tb) tbs
    → map (new_row lesson' c) tbs ≡ rows_of lessons blocks (map (placed lesson' c) tbs)
rows_of-placed lessons blocks lesson' c [] found known = refl
rows_of-placed lessons blocks lesson' c (tb ∷ tbs) found known =
    ap (λ rows. new_row lesson' c tb ∷ rows)
      (rows_of-placed lessons blocks lesson' c tbs found known.1)
    ∙ rows_of-known lessons blocks lesson' (placed lesson' c tb) tb (map (placed lesson' c) tbs)
        found known.0

All-drop : (P : TimeBlock → Type 0) (i : ℕ) (tbs : List TimeBlock) → All P tbs → All P (drop i tbs)
All-drop P zero tbs h = h
All-drop P (suc i) [] h = tt
All-drop P (suc i) (tb ∷ tbs) h = All-drop P i tbs h.1

All-window :
    (P : TimeBlock → Type 0) (n : ℕ) (tbs blocks : List TimeBlock)
    → window n tbs ≡ some blocks
    → All P tbs
    → All P blocks
unfolding window
All-window P zero tbs blocks h all = subst (All P) (some-inj h) tt
All-window P (suc n) [] blocks h all = cc
All-window P (suc n) (tb ∷ tbs) blocks h all = elim (Option-cases (window n tbs)) [
  | inl past ↦ absurd (ground (arith, h, past))
  | inr (rest, found) ↦
      subst (All P) (some-inj (rw (found, window) at h))
        (all.0, All-window P n tbs rest found all.1)
]

length-map : {A B : Type 0} (f : A → B) (xs : List A) → length (map f xs) ≡ length xs
length-map f [] = refl
length-map f (x ∷ xs) = ap suc (length-map f xs)

unplaced_kind-some :
    (setting : Setting) (s : GreedyState) (lesson' : Lesson) (teacher : ℕ)
    → assigned_teacher_id lesson' ≡ some teacher
    → (kind : ViolationKind) × (unplaced_kind setting s lesson' ≡ some kind)
unfolding unplaced_kind
unplaced_kind-some setting s lesson' teacher assigned =
    rw (assigned, unplaced_kind)
      (three_kinds
        (leb (get_or_default 0 setting.teacher_max teacher)
          (get_or_default 0 s.hours_by_teacher teacher))
        (not (any (slot_open setting s lesson' teacher) setting.problem.time_blocks)))
  where
    three_kinds :
        (full shut : Bool)
        → (kind : ViolationKind) × ((if full
              then some teacher_over_capacity
              else (if shut then some no_free_time_block else some no_suitable_room))
            ≡ some kind)
    three_kinds true shut = (teacher_over_capacity, refl)
    three_kinds false true = (no_free_time_block, refl)
    three_kinds false false = (no_suitable_room, refl)

module _ (lessons : HashMap ℕ Lesson) (blocks : HashMap ℕ TimeBlock) (setting : Setting)
    (lesson' : Lesson) (subject : Subject) (teacher : ℕ)
    (has_subject : find (λ sub. sub.id == lesson'.subject_id) setting.problem.subjects
      ≡ some subject)
    (has_teacher : assigned_teacher_id lesson' ≡ some teacher)
    (distinct_classes : IsDistinct lesson'.school_class_ids)
    (is_known : get lessons lesson'.id ≡ some lesson')
    (distinct_blocks : IsDistinct (ids setting.tb_order))
    (blocks_known : All (λ tb. get blocks tb.id ≡ some tb) setting.tb_order) where
  -- One iteration: consistent again, and its `n` hours are placed or reported.
  abbrev Accounts : ℕ → Progress → Progress → Type 0
  Accounts hours now next =
      IsConsistent lessons blocks next.placements next.state × Adds lesson' hours now next

  placed-Accounts :
      (now : Progress) (placements' : List Placement) (s' : GreedyState)
      → IsPlaced setting now.state now.placements lesson' subject lesson'.preferred_block_size
          (rows_of lessons blocks now.placements)
          placements'
          s'
      → Accounts lesson'.preferred_block_size now
          (record now { placements = placements'; state = s' })
  placed-Accounts now placements' s' is_placed =
      let c = is_placed.candidate in
      let tbs = is_placed.is_feasible.blocks in
      let same : rows_of lessons blocks now.placements ++ map (new_row lesson' c) tbs
          ≡ rows_of lessons blocks placements' =
        ap (λ rows. rows_of lessons blocks now.placements ++ rows)
          (rows_of-placed lessons blocks lesson' c tbs is_known (
            All-window (λ tb. get blocks tb.id ≡ some tb) lesson'.preferred_block_size
              (drop c.outer_pos setting.tb_order) tbs is_placed.is_feasible.is_window
              (All-drop (λ tb. get blocks tb.id ≡ some tb) c.outer_pos setting.tb_order
                blocks_known)))
        ∙ sym (rows_of-append lessons blocks now.placements (map (placed lesson' c) tbs))
        ∙ ap (rows_of lessons blocks) (sym is_placed.appended) in
      (
        record {
          seated = subst (λ rows. IsSeated rows s') same is_placed.seated;
          apart = subst IsApart same is_placed.apart;
        },
        (
          map (placed lesson' c) tbs,
          [],
          is_placed.appended,
          sym (append_nil now.violations),
          placed_ours lesson' c tbs,
          tt,
          none_reported (length (map (placed lesson' c) tbs)) lesson'.preferred_block_size
              (length-map (placed lesson' c) tbs ∙ is_placed.size),
        ),
      )

  reported-Accounts :
      (now : Progress) (block_index : ℕ) (kind : ViolationKind)
      → IsConsistent lessons blocks now.placements now.state
      → Accounts lesson'.preferred_block_size now (record now {
        violations =
            now.violations ++ (unplaced lesson' lesson'.preferred_block_size block_index kind ∷ []);
      })
  reported-Accounts now block_index kind consistent = (
    consistent,
    (
      [],
      unplaced lesson' lesson'.preferred_block_size block_index kind ∷ [],
      sym (append_nil now.placements),
      refl,
      tt,
      (refl, tt),
      one_reported lesson'.preferred_block_size,
    ),
  )

  place_one-Accounts :
      (block_index : ℕ) (now : Progress)
      → IsConsistent lessons blocks now.placements now.state
      → (next : Progress) × (place_one setting lesson' lesson'.preferred_block_size block_index now
          ≡ some next)
        × Accounts lesson'.preferred_block_size now next
  unfolding place_one
  place_one-Accounts block_index now consistent =
      let n = lesson'.preferred_block_size in
      elim (try_place_block-IsPlaced setting now.state now.placements lesson' subject n
        (rows_of lessons blocks now.placements) has_subject distinct_blocks distinct_classes
        consistent.seated consistent.apart) [
          | inl refused ↦
              let (kind, is_kind) =
                unplaced_kind-some setting now.state lesson' teacher has_teacher in
              (
                record now {
                  violations = now.violations ++ (unplaced lesson' n block_index kind ∷ []);
                },
                rw (refused, is_kind, place_one) refl,
                reported-Accounts now block_index kind consistent,
              )
          | inr (placements', s', accepted, is_placed) ↦ (
            record now { placements = placements'; state = s' },
            rw (accepted, place_one) refl,
            placed-Accounts now placements' s' is_placed,
          )
        ]

  place_blocks-Accounts :
      (left block_index : ℕ) (now : Progress)
      → IsConsistent lessons blocks now.placements now.state
      → (end : Progress) × (place_blocks setting lesson' lesson'.preferred_block_size left
            block_index now
          ≡ some end)
        × Accounts (left * lesson'.preferred_block_size) now end
  unfolding place_blocks
  place_blocks-Accounts zero block_index now consistent = (
    now,
    refl,
    (
      consistent,
      (
        [],
        [],
        sym (append_nil now.placements),
        sym (append_nil now.violations),
        tt,
        tt,
        nothing_added lesson'.preferred_block_size,
      ),
    ),
  )
  place_blocks-Accounts (suc left) block_index now consistent =
      let (next, stepped, (consistent', first)) = place_one-Accounts block_index now consistent in
      let (end, rest, (consistent'', later)) =
        place_blocks-Accounts left (suc block_index) next consistent' in
      (
        end,
        rw (stepped, place_blocks) rest,
        (consistent'', Adds-step lesson' left now next end first later),
      )

whole_blocks : (h n : ℕ) → (n == 0) ≡ false → h % n ≡ 0 → (h / n) * n ≡ h
whole_blocks h n positive divides = grind arith

-- A known lesson with a subject, a teacher, distinct classes and hours in whole blocks can always be run
-- through the greedy pass, from used sets that are those of placements of which no two clash. In the result the
-- used sets are again those of the placements, and no two clash; what was added are placements of this lesson
-- and reports of this lesson, and every hour is accounted for: the placements, one hour each, and the reported
-- blocks, `preferred_block_size` hours each, add up to the lesson's hours.
pub place_lesson-IsConsistent :
    (lessons : HashMap ℕ Lesson) (blocks : HashMap ℕ TimeBlock) (setting : Setting)
    (lesson' : Lesson) (subject : Subject) (teacher : ℕ) (now : Progress)
    → find (λ sub. sub.id == lesson'.subject_id) setting.problem.subjects ≡ some subject
    → assigned_teacher_id lesson' ≡ some teacher
    → IsDistinct lesson'.school_class_ids
    → get lessons lesson'.id ≡ some lesson'
    → IsDistinct (ids setting.tb_order)
    → All (λ tb. get blocks tb.id ≡ some tb) setting.tb_order
    → (lesson'.preferred_block_size == 0) ≡ false
    → lesson'.hours_per_week % lesson'.preferred_block_size ≡ 0
    → IsConsistent lessons blocks now.placements now.state
    → (end : Progress) × (place_lesson setting lesson' now ≡ some end)
      × IsConsistent lessons blocks end.placements end.state
      × Adds lesson' lesson'.hours_per_week now end
unfolding place_lesson
place_lesson-IsConsistent lessons blocks setting lesson' subject teacher now has_subject has_teacher
      classes is_known order known positive divides consistent =
    let n = lesson'.preferred_block_size in
    let (end, ran, (consistent', total)) =
      place_blocks-Accounts lessons blocks setting lesson' subject teacher has_subject has_teacher
        classes is_known order known (lesson'.hours_per_week / n) 0 now consistent in
    (
      end,
      rw positive ran,
      consistent',
      subst (λ h. Adds lesson' h now end) (whole_blocks lesson'.hours_per_week n positive divides)
          total,
    )
