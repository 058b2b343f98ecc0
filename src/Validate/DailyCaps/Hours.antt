-- ===== src/Validate/DailyCaps/Hours.antt =====
-- The hours that `validate_daily_caps` compares with a subject's cap are those of the placements.
use klassenzeit.Base.{
  ℕ, ◌+◌, ◌≤◌, ◌≡◌, refl, ap, ◌∙◌, arith, inl, inr, false, ◌&&◌, ◌==◌, ltb, if◌then◌else◌, none,
  some, List, [], ◌∷◌, ◌++◌, length, length-append, find-In, HashMap, get, insert, update,
  get_or_default, get_or_default-update, pair_eq, triple_eq, add_u32, to_u32, u32_max, ==_iff,
  Bool-cases, Option-cases, some-inj, subst, sym, sort_by, leb,
}
use klassenzeit.Types.{Problem, Lesson, Subject, TimeBlock, Placement}
use klassenzeit.Validate.Outcome.{
  ok, ok_or, refuse_if, >>=-eq-ok, ok_or-eq-ok, refuse_if-eq-ok, ok-inj,
}
use klassenzeit.Validate.DailyCaps.{
  lesson_named, block_named, subject_named, enter_position, rows_by_lesson_day, Loads, no_loads,
  load_classes, count_blocks, load_all, check_hours, validate_daily_caps,
}

-- `h` for each time the class is named.
unfoldable pub share : ℕ → ℕ → List ℕ → ℕ
share h c [] = 0
share h c (d ∷ ds) = (if d == c then h else 0) + share h c ds

-- What `h` hours of a lesson on a day bring a class in a subject on a day.
unfoldable pub lesson_share : Problem → ℕ → ℕ → ℕ → ℕ → ℕ × ℕ → ℕ
unfolding share
lesson_share problem c day subject_id h key = elim (lesson_named problem key.0) [
  | none ↦ 0
  | some l ↦
      if (key.1 == day) && (l.subject_id == subject_id) then share h c l.school_class_ids else 0
]

-- The number of hours of a class in a subject on a day, read off the placements.
unfoldable pub hours_of : Problem → ℕ → ℕ → ℕ → List Placement → ℕ
unfolding lesson_share
hours_of problem c day subject_id [] = 0
hours_of problem c day subject_id (p ∷ ps) =
    elim (block_named problem p.time_block_id) [
      | none ↦ 0
      | some tb ↦ lesson_share problem c day subject_id 1 (p.lesson_id, tb.day_of_week)
    ]
    + hours_of problem c day subject_id ps

share_suc : (h c : ℕ) (cs : List ℕ) → share (h + 1) c cs ≡ share h c cs + share 1 c cs
unfolding share
share_suc h c [] = refl
share_suc h c (d ∷ ds) = ground (arith, share_suc h c ds)

share_none : (c : ℕ) (cs : List ℕ) → share 0 c cs ≡ 0
unfolding share
share_none c [] = refl
share_none c (d ∷ ds) = ground (arith, share_none c ds)

-- Hours that fit are not cut off.
share-to_u32 :
    (n c : ℕ) (cs : List ℕ) → share n c cs ≤ u32_max → share (to_u32 n) c cs ≡ share n c cs
unfolding share
share-to_u32 n c [] h = refl
share-to_u32 n c (d ∷ ds) h = ground (arith, share-to_u32 n c ds)

-- An entry of another key is passed over.
module _ (j key : ℕ × ℕ) (ps : List ℕ) (rows : HashMap (ℕ × ℕ) (List ℕ)) where
  get_later : pair_eq.beq j key ≡ false → get ((j, ps) ∷ rows) key ≡ get rows key
  unfolding get
  get_later other = rw (other, get) refl

  insert_later :
      (v : List ℕ)
      → pair_eq.beq j key ≡ false
      → insert key v ((j, ps) ∷ rows) ≡ (j, ps) ∷ insert key v rows
  unfolding insert
  insert_later v other = rw (other, insert) refl

  update_later :
      (p : ℕ)
      → pair_eq.beq j key ≡ false
      → update key [] (λ ps. ps ++ (p ∷ [])) ((j, ps) ∷ rows)
        ≡ (j, ps) ∷ update key [] (λ ps. ps ++ (p ∷ [])) rows
  unfolding update
  update_later p other =
      insert_later _ other
      ∙ ap
          (λ o.
            (j, ps)
            ∷ insert key (elim o as (λ _. List ℕ) [ none ↦ [] | some v ↦ v ] ++ (p ∷ [])) rows)
          (get_later other)

module _ (problem : Problem) (c day subject_id : ℕ) where
  lesson_share_suc :
      (h : ℕ) (key : ℕ × ℕ)
      → lesson_share problem c day subject_id (h + 1) key
        ≡ lesson_share problem c day subject_id h key + lesson_share problem c day subject_id 1 key
  unfolding lesson_share
  lesson_share_suc h key = elim (Option-cases (lesson_named problem key.0)) [
    | inl missing ↦ rw (missing, lesson_share) refl
    | inr (l, found) ↦ rw (found, lesson_share) (ground (arith, share_suc h c l.school_class_ids))
  ]

  lesson_share_none : (key : ℕ × ℕ) → lesson_share problem c day subject_id 0 key ≡ 0
  unfolding lesson_share
  lesson_share_none key = elim (Option-cases (lesson_named problem key.0)) [
    | inl missing ↦ rw (missing, lesson_share) refl
    | inr (l, found) ↦ rw (found, lesson_share) (ground (arith, share_none c l.school_class_ids))
  ]

  -- The hours in the rows that the first loop gathers.
  unfoldable total : HashMap (ℕ × ℕ) (List ℕ) → ℕ
  total [] = 0
  total ((key, positions) ∷ rows) =
      lesson_share problem c day subject_id (length positions) key + total rows

  total-update :
      (key : ℕ × ℕ) (p : ℕ) (rows : HashMap (ℕ × ℕ) (List ℕ))
      → total (update key [] (λ ps. ps ++ (p ∷ [])) rows)
        ≡ total rows + lesson_share problem c day subject_id 1 key
  unfolding total update get insert
  total-update key p [] = omega arith
  total-update key p ((j, ps) ∷ rows) = elim (Bool-cases (pair_eq.beq j key)) [
    | inl same ↦
        rw (same, length-append ps (p ∷ []), ← (pair_eq.beq_iff j key).0 same)
          (omega (arith, lesson_share_suc (length ps) j))
    | inr other ↦ rw (update_later j key ps rows p other) (omega (arith, total-update key p rows))
  ]

  entered :
      (p : Placement) (rows : HashMap (ℕ × ℕ) (List ℕ)) (l : Lesson) (tb : TimeBlock)
      → lesson_named problem p.lesson_id ≡ some l
      → block_named problem p.time_block_id ≡ some tb
      → total (update (l.id, tb.day_of_week) [] (λ ps. ps ++ (tb.position ∷ [])) rows)
        ≡ total rows + hours_of problem c day subject_id (p ∷ [])
  unfolding hours_of
  entered p rows l tb found stands =
      let same : l.id ≡ p.lesson_id =
        (==_iff l.id p.lesson_id).0 (find-In _ problem.lessons found).1 in
      rw (total-update (l.id, tb.day_of_week) tb.position rows, same, stands) (omega arith)

  enter_position_lem :
      (p : Placement) (rows : HashMap (ℕ × ℕ) (List ℕ)) {rows' : HashMap (ℕ × ℕ) (List ℕ)}
      → enter_position problem p rows ≡ ok rows'
      → total rows' ≡ total rows + hours_of problem c day subject_id (p ∷ [])
  unfolding enter_position
  enter_position_lem p rows h =
      let (l, found, h') = >>=-eq-ok (ok_or (lesson_named problem p.lesson_id) _) _ h in
      let (tb, stands, h'') = >>=-eq-ok (ok_or (block_named problem p.time_block_id) _) _ h' in
      rw (← ok-inj h'') (entered p rows l tb (ok_or-eq-ok _ _ found) (ok_or-eq-ok _ _ stands))

  rows_by_lesson_day_lem :
      (ps : List Placement) (rows : HashMap (ℕ × ℕ) (List ℕ)) {rows' : HashMap (ℕ × ℕ) (List ℕ)}
      → rows_by_lesson_day problem ps rows ≡ ok rows'
      → total rows' ≡ total rows + hours_of problem c day subject_id ps
  unfolding rows_by_lesson_day hours_of
  rows_by_lesson_day_lem [] rows h = rw (← ok-inj h) (omega arith)
  rows_by_lesson_day_lem (p ∷ ps) rows h =
      let (between, first, rest) = >>=-eq-ok (enter_position problem p rows) _ h in
      omega (arith, enter_position_lem p rows first, rows_by_lesson_day_lem ps between rest)

  -- The hours of the key in the second loop's map.
  hours_in : Loads → ℕ
  hours_in loads = get_or_default 0 loads.subject_hours (c, day, subject_id)

  load_classes_lem :
      (day' subject' hours blocks : ℕ) (cs : List ℕ) (loads : Loads)
      → (let brought =
            (if (day' == day) && (subject' == subject_id) then share hours c cs else 0) in
          hours_in loads + brought ≤ u32_max
          → hours_in (load_classes day' subject' hours blocks cs loads) ≡ hours_in loads + brought)
  unfolding load_classes share hours_in
  load_classes_lem day' subject' hours blocks [] loads fits = ground arith
  load_classes_lem day' subject' hours blocks (d ∷ ds) loads fits =
      let next : Loads = record {
        subject_hours = update (d, day', subject') 0 (λ h. add_u32 h hours) loads.subject_hours;
        class_blocks = update (d, day') 0 (λ b. add_u32 b blocks) loads.class_blocks;
      } in
      ground (
        arith,
        load_classes_lem day' subject' hours blocks ds next,
        get_or_default-update (d, day', subject') (c, day, subject_id) 0 (λ h. add_u32 h hours)
            loads.subject_hours,
      )

  -- The hours of a lesson's row on a day, in the map's unit.
  share_of_row :
      (lesson_id day' hours blocks : ℕ) (l : Lesson) (loads : Loads)
      → lesson_named problem lesson_id ≡ some l
      → hours_in loads + lesson_share problem c day subject_id hours (lesson_id, day') ≤ u32_max
      → hours_in (load_classes day' l.subject_id (to_u32 hours) blocks l.school_class_ids loads)
        ≡ hours_in loads + lesson_share problem c day subject_id hours (lesson_id, day')
  unfolding lesson_share
  share_of_row lesson_id day' hours blocks l loads found fits =
      let fits' : hours_in loads
            + (if (day' == day) && (l.subject_id == subject_id)
                then share hours c l.school_class_ids
                else 0)
          ≤ u32_max =
        subst
          (λ o.
            hours_in loads + elim o as (λ _. ℕ) [
              | none ↦ 0
              | some l ↦
                  if (day' == day) && (l.subject_id == subject_id)
                  then share hours c l.school_class_ids
                  else 0
            ]
            ≤ u32_max)
          found fits in
      rw (found, lesson_share)
        (ground (
          arith,
          share-to_u32 hours c l.school_class_ids,
          load_classes_lem day' l.subject_id (to_u32 hours) blocks l.school_class_ids loads,
        ))

  load_all_lem :
      (rows : HashMap (ℕ × ℕ) (List ℕ)) (loads : Loads) {loads' : Loads}
      → load_all problem rows loads ≡ ok loads'
      → hours_in loads + total rows ≤ u32_max
      → hours_in loads' ≡ hours_in loads + total rows
  unfolding load_all total
  load_all_lem [] loads h fits = rw (← ok-inj h) (omega arith)
  load_all_lem (((lesson_id, day'), positions) ∷ rows) loads h fits =
      let (l, found, rest) = >>=-eq-ok (ok_or (lesson_named problem lesson_id) _) _ h in
      let first =
        share_of_row lesson_id day' (length positions) (count_blocks none 0 (sort_by leb positions))
          l loads (ok_or-eq-ok _ _ found) (omega arith) in
      omega (arith, first, load_all_lem rows _ rest)

check_hours_lem :
    (problem : Problem) (hours : HashMap (ℕ × ℕ × ℕ) ℕ) (c day subject_id : ℕ) {subject : Subject}
    → check_hours problem hours ≡ ok tt
    → subject_named problem subject_id ≡ some subject
    → get_or_default 0 hours (c, day, subject_id) ≤ subject.max_hours_per_day
unfolding check_hours get_or_default get
check_hours_lem problem [] c day subject_id h stands = omega arith
check_hours_lem problem (((c', day', subject'), n) ∷ more) c day subject_id {subject} h stands =
    let (found, looked, rest) = >>=-eq-ok (ok_or (subject_named problem subject') _) _ h in
    let (u, below, rest') = >>=-eq-ok (refuse_if (ltb found.max_hours_per_day n) _) _ rest in
    let within : ltb found.max_hours_per_day n ≡ false = refuse_if-eq-ok _ _ below in
    let later = check_hours_lem problem more c day subject_id rest' stands in
    let key : ℕ × ℕ × ℕ = (c', day', subject') in
    elim (Bool-cases (triple_eq.beq key (c, day, subject_id))) [
      | inr other ↦ rw (other, get_or_default, get) later
      | inl same ↦
          let eq = (triple_eq.beq_iff key (c, day, subject_id)).0 same in
          let capped : found ≡ subject =
            some-inj
              (sym (ok_or-eq-ok _ _ looked) ∙ ap (λ k. subject_named problem k.2) eq ∙ stands) in
          rw (same, get_or_default, get, ← capped) (ground arith)
    ]

-- When the validator accepts, a class has no more hours of a known subject on a day than the
-- subject's cap: as many as the placements of its lessons in that subject on that day count, a class
-- named twice by a lesson counted twice, provided that this number fits in 32 bits.
pub validate_daily_caps-hours_of :
    (problem : Problem) (placements : List Placement) (c day subject_id : ℕ) (subject : Subject)
    → validate_daily_caps problem placements ≡ ok tt
    → subject_named problem subject_id ≡ some subject
    → hours_of problem c day subject_id placements ≤ u32_max
    → hours_of problem c day subject_id placements ≤ subject.max_hours_per_day
unfolding validate_daily_caps hours_in get_or_default total
validate_daily_caps-hours_of problem placements c day subject_id subject accepted stands fits =
    let (rows, gathered, h) = >>=-eq-ok (rows_by_lesson_day problem placements []) _ accepted in
    let (loads, loaded, h') = >>=-eq-ok (load_all problem rows no_loads) _ h in
    let (u, checked, h'') = >>=-eq-ok (check_hours problem loads.subject_hours) _ h' in
    let count = rows_by_lesson_day_lem problem c day subject_id placements [] gathered in
    let sum = load_all_lem problem c day subject_id rows no_loads loaded (omega arith) in
    let below = check_hours_lem problem loads.subject_hours c day subject_id checked stands in
    omega arith
