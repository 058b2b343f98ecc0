-- ===== src/Greedy/Place/Chosen.antt =====
-- What holds of a block that the search chooses.
use klassenzeit.Base.{
  ℕ, zero, suc, ◌≡◌, refl, Bool, true, false, ◌&&◌, not, Option, none, some, List, [], ◌∷◌, ◌==◌,
  leb, ltb, get, get_or_default, any, sat_add_u8, add_u8, sub_u8, nat_eq, pair_eq, triple_eq, arith,
  Bool-cases, Option-cases, inl, inr, some-inj, ap, sym, subst,
}
use klassenzeit.Types.{Lesson, Subject, Placement, TimeBlock, Room}
use klassenzeit.Index.{room_suits_subject}
use klassenzeit.Score.HomeRoom.{home_room_penalty}
use klassenzeit.Greedy.State.{GreedyState}
use klassenzeit.Greedy.Travel.{would_violate_travel_buffer}
use klassenzeit.Greedy.Place.{
  Setting, BlockCandidate, shared_lock, candidate_teachers, window, contiguous, class_busy,
  room_busy, teacher_busy, over_daily_cap, room_fits, best_room, prefer, takes,
}
use klassenzeit.Greedy.Place.Pick.{
  Opening, required_hours, teacher_fits, candidate_of, teachers_loop, after_first, window_fits,
  step_window, open_window, opening, with_room, with_lock, unbeatable, windows_loop, pick_block,
}
use klassenzeit.Greedy.Place.Commit.{drop}

-- The candidate's window is a run of consecutive positions of one day in the order, from its `start_pos` to its
-- `end_pos`; its classes, room and
-- teacher are free in all of it, no cap is passed, and no travel buffer is in the way.
pub record IsFeasible (setting : Setting) (s : GreedyState) (placements : List Placement)
    (lesson' : Lesson) (subject : Subject) (n : ℕ) (c : BlockCandidate) : Type 0 where
  pub blocks : List TimeBlock
  pub first : TimeBlock
  pub is_window : window n (drop c.outer_pos setting.tb_order) ≡ some blocks
  pub day : c.day ≡ first.day_of_week
  pub start_pos : c.start_pos ≡ first.position
  pub end_pos : c.end_pos ≡ sub_u8 (add_u8 first.position n) 1
  pub in_a_row : contiguous first.day_of_week first.position 1 (after_first blocks) ≡ true
  pub classes_free : any (class_busy s lesson'.school_class_ids) blocks ≡ false
  pub room_free : any (room_busy setting s c.room_id) blocks ≡ false
  pub teacher_free : any (teacher_busy setting s c.teacher_id) blocks ≡ false
  pub room_suits : room_suits_subject setting.idx c.room_id lesson'.subject_id ≡ true
  pub caps :
      any (over_daily_cap setting s lesson' subject n first.day_of_week) lesson'.school_class_ids
      ≡ false
  pub existing_lock : Option ℕ
  pub capacity :
      ltb (get_or_default 0 setting.teacher_max c.teacher_id) (
        sat_add_u8
          (get_or_default 0 s.hours_by_teacher c.teacher_id)
          (required_hours existing_lock lesson' n))
      ≡ false
  pub travel :
      would_violate_travel_buffer setting.problem s placements lesson' first.id c.teacher_id none
      ≡ false

abbrev Holds {ℓ κ} : {A : Type ℓ} → (A → Type κ) → Option A → Type κ
Holds P none = Unit
Holds P (some a) = P a

Holds-prefer :
    (P : BlockCandidate → Type 0) (c : BlockCandidate) (best : Option BlockCandidate)
    → P c
    → Holds P best
    → Holds P (prefer c best)
Holds-prefer P c none new old = new
Holds-prefer P c (some b) new old = elim (Bool-cases (leb b.total_score c.total_score)) [
  | inl e ↦ rw e old
  | inr e ↦ rw e new
]

module _ (setting : Setting) (s : GreedyState) (placements : List Placement) (lesson' : Lesson)
    (n : ℕ) (existing_lock : Option ℕ) (P : BlockCandidate → Type 0) (o : Opening)
    (fine : (t : ℕ)
      → teacher_fits setting s placements lesson' n existing_lock o t ≡ true
      → P (candidate_of setting s lesson' existing_lock o t)) where
  Holds-teachers_loop :
      (teachers : List ℕ) (best : Option BlockCandidate)
      → Holds P best
      → Holds P (teachers_loop setting s placements lesson' n existing_lock o teachers best)
  unfolding teachers_loop
  Holds-teachers_loop [] best old = old
  Holds-teachers_loop (t ∷ ts) best old =
      elim (Bool-cases (teacher_fits setting s placements lesson' n existing_lock o t)) [
        | inr e ↦ rw e (Holds-teachers_loop ts best old)
        | inl e ↦ rw e (
            Holds-teachers_loop ts (prefer (candidate_of setting s lesson' existing_lock o t) best)
              (Holds-prefer P (candidate_of setting s lesson' existing_lock o t) best (fine t e)
                old))
      ]

best_room-fits :
    (fits : ℕ → Bool) (penalty : ℕ → ℕ) (rooms : List Room) (best : Option (ℕ × ℕ))
    → Holds (λ r. fits r.0 ≡ true) best
    → Holds (λ r. fits r.0 ≡ true) (best_room fits penalty rooms best)
unfolding best_room
best_room-fits fits penalty [] best old = old
best_room-fits fits penalty (room ∷ rooms) best old = elim (Bool-cases (fits room.id)) [
  | inr e ↦ rw e (best_room-fits fits penalty rooms best old)
  | inl e ↦ elim (Bool-cases (takes (penalty room.id) best)) [
    | inr e' ↦ rw (e, e') (best_room-fits fits penalty rooms best old)
    | inl e' ↦ elim (Bool-cases (penalty room.id == 0)) [
      | inl e'' ↦ rw (e, e', e'') e
      | inr e'' ↦
          rw (e, e', e'') (best_room-fits fits penalty rooms (some (room.id, penalty room.id)) e)
    ]
  ]
]

-- What an opened window says.
record IsOpen (setting : Setting) (s : GreedyState) (lesson' : Lesson) (subject : Subject) (n : ℕ)
    (outer_pos : ℕ) (first : TimeBlock) (blocks : List TimeBlock) (o : Opening) : Type 0 where
  outer_same : o.outer_pos ≡ outer_pos
  first_same : o.first_tb ≡ first
  blocks_same : o.blocks ≡ blocks
  end_same : o.end_pos ≡ sub_u8 (add_u8 first.position n) 1
  fits : window_fits setting s lesson' subject n first blocks ≡ true
  suits : room_suits_subject setting.idx o.room_id lesson'.subject_id ≡ true
  free : any (room_busy setting s o.room_id) blocks ≡ false

room_parts :
    (setting : Setting) (s : GreedyState) (subject_id : ℕ) (lock : Option ℕ) (w : List TimeBlock)
    (room : ℕ)
    → room_fits setting s subject_id lock w room ≡ true
    → (room_suits_subject setting.idx room subject_id ≡ true)
      × (any (room_busy setting s room) w ≡ false)
room_parts setting s subject_id lock w room h = ground arith

with_lock_parts :
    (fits : Bool) (lock : Option (Option ℕ)) (opened : Option ℕ → Option Opening) (o : Opening)
    → with_lock fits lock opened ≡ some o
    → (fits ≡ true) × (l : Option ℕ) × (opened l ≡ some o)
with_lock_parts false lock opened o h = cc
with_lock_parts true none opened o h = cc
with_lock_parts true (some l) opened o h = (refl, l, h)

with_room_parts :
    (room : Option (ℕ × ℕ)) (opened : ℕ × ℕ → Opening) (o : Opening)
    → with_room room opened ≡ some o
    → (r : ℕ × ℕ) × (room ≡ some r) × (o ≡ opened r)
with_room_parts none opened o h = cc
with_room_parts (some r) opened o h = (r, refl, sym (some-inj h))

IsOpen-open_window :
    (setting : Setting) (s : GreedyState) (lesson' : Lesson) (subject : Subject) (n outer_pos : ℕ)
    (first : TimeBlock) (blocks : List TimeBlock) (o : Opening)
    → open_window setting s lesson' subject n outer_pos first blocks ≡ some o
    → IsOpen setting s lesson' subject n outer_pos first blocks o
unfolding open_window
IsOpen-open_window setting s lesson' subject n outer_pos first blocks o h =
    let penalty =
      λ (room : ℕ). home_room_penalty lesson' setting.home_room_lookup room setting.weights in
    let opened = opening setting s lesson' subject n outer_pos first blocks in
    let (fits, lock, h') =
      with_lock_parts (window_fits setting s lesson' subject n first blocks) _
        (λ lock.
          with_room
            (best_room (room_fits setting s lesson'.subject_id lock blocks) penalty
              setting.room_order none)
            opened)
        o h in
    let ok_room = room_fits setting s lesson'.subject_id lock blocks in
    let (r, found, same) =
      with_room_parts (best_room ok_room penalty setting.room_order none) opened o h' in
    let room_ok = room_parts setting s lesson'.subject_id lock blocks r.0 (
      subst (Holds (λ r. ok_room r.0 ≡ true)) found
        (best_room-fits ok_room penalty setting.room_order none tt)) in
    rw same (record {
      outer_same = refl;
      first_same = refl;
      blocks_same = refl;
      end_same = refl;
      fits = fits;
      suits = room_ok.0;
      free = room_ok.1;
    })

drop-suc :
    (i : ℕ) (order : List TimeBlock) (tb : TimeBlock) (tbs : List TimeBlock)
    → drop i order ≡ tb ∷ tbs
    → drop (suc i) order ≡ tbs
drop-suc zero [] tb tbs h = cc
drop-suc zero (x ∷ xs) tb tbs h = ap (λ l. drop 1 l) h
drop-suc (suc i) [] tb tbs h = cc
drop-suc (suc i) (x ∷ xs) tb tbs h = drop-suc i xs tb tbs h

no_filter :
    (a b c : Bool) → (not a && (not b && not c)) ≡ true → (a ≡ false) × (b ≡ false) × (c ≡ false)
no_filter a b c h = ground arith

run_filter :
    (a b c : Bool) → (a && (not b && not c)) ≡ true → (a ≡ true) × (b ≡ false) × (c ≡ false)
run_filter a b c h = ground arith

module _ (setting : Setting) (s : GreedyState) (placements : List Placement) (lesson' : Lesson)
    (subject : Subject) (n : ℕ) (existing_lock : Option ℕ) where
  abbrev Feasible : BlockCandidate → Type 0
  Feasible = IsFeasible setting s placements lesson' subject n

  -- A teacher who passes the filters in an opened window of the order makes a feasible candidate.
  Feasible-candidate_of :
      (outer_pos : ℕ) (first : TimeBlock) (blocks : List TimeBlock) (o : Opening)
      → window n (drop outer_pos setting.tb_order) ≡ some blocks
      → IsOpen setting s lesson' subject n outer_pos first blocks o
      → (t : ℕ) → teacher_fits setting s placements lesson' n existing_lock o t ≡ true
      → Feasible (candidate_of setting s lesson' existing_lock o t)
  unfolding candidate_of teacher_fits window_fits
  Feasible-candidate_of outer_pos first blocks o w opened t h =
      let (busy, over, late) =
        no_filter (any (teacher_busy setting s t) o.blocks)
          (ltb (get_or_default 0 setting.teacher_max t) (
            sat_add_u8 (get_or_default 0 s.hours_by_teacher t)
              (required_hours existing_lock lesson' n)))
          (would_violate_travel_buffer setting.problem s placements lesson' o.first_tb.id t none)
          h in
      let (run, taken, capped) =
        run_filter (contiguous first.day_of_week first.position 1 (after_first blocks))
          (any (class_busy s lesson'.school_class_ids) blocks)
          (any (over_daily_cap setting s lesson' subject n first.day_of_week)
            lesson'.school_class_ids)
          opened.fits in
      record {
        blocks = blocks;
        first = first;
        is_window = rw opened.outer_same w;
        day = ap (λ tb. tb.day_of_week) opened.first_same;
        start_pos = ap (λ tb. tb.position) opened.first_same;
        end_pos = opened.end_same;
        in_a_row = run;
        classes_free = taken;
        room_free = opened.free;
        teacher_free = rw (← opened.blocks_same) busy;
        room_suits = opened.suits;
        caps = capped;
        existing_lock = existing_lock;
        capacity = over;
        travel = rw (← opened.first_same) late;
      }

  Feasible-step_window :
      (outer_pos : ℕ) (tb : TimeBlock) (blocks : List TimeBlock) (best : Option BlockCandidate)
      → window n (drop outer_pos setting.tb_order) ≡ some blocks
      → Holds Feasible best
      → Holds Feasible (
          step_window setting s placements lesson' subject n existing_lock outer_pos tb blocks best)
  unfolding step_window
  Feasible-step_window outer_pos tb blocks best w old =
      elim (Option-cases (open_window setting s lesson' subject n outer_pos tb blocks)) [
        | inl shut ↦ rw (shut, Holds, step_window) old
        | inr (o, is_open) ↦
            rw (is_open, Holds, step_window)
              (Holds-teachers_loop setting s placements lesson' n existing_lock Feasible o
                (Feasible-candidate_of outer_pos tb blocks o w
                  (IsOpen-open_window setting s lesson' subject n outer_pos tb blocks o is_open))
                (candidate_teachers existing_lock lesson') best old)
      ]

  Feasible-windows_loop :
      (outer_pos : ℕ) (tbs : List TimeBlock) (best : Option BlockCandidate)
      → drop outer_pos setting.tb_order ≡ tbs
      → Holds Feasible best
      → Holds Feasible
          (windows_loop setting s placements lesson' subject n existing_lock outer_pos tbs best)
  unfolding windows_loop
  Feasible-windows_loop outer_pos [] best at' old = old
  Feasible-windows_loop outer_pos (tb ∷ tbs) best at' old =
      elim (Option-cases (window n (tb ∷ tbs))) [
        | inl past ↦ rw (past, Holds, windows_loop) old
        | inr (blocks, found) ↦
            let best' =
              step_window setting s placements lesson' subject n existing_lock outer_pos tb blocks
                best in
            let kept =
              Feasible-step_window outer_pos tb blocks best
                (subst (λ w. window n w ≡ some blocks) (sym at') found) old in
            rw (found, Holds, windows_loop)
              (elim (Bool-cases (unbeatable s outer_pos best')) [
                | inl e ↦ rw e kept
                | inr e ↦ rw e (
                    Feasible-windows_loop (suc outer_pos) tbs best'
                      (drop-suc outer_pos setting.tb_order tb tbs at') kept)
              ])
      ]

-- The candidate that the search returns is feasible.
pub pick_block-IsFeasible :
    (setting : Setting) (s : GreedyState) (placements : List Placement) (lesson' : Lesson)
    (subject : Subject) (n : ℕ) (c : BlockCandidate)
    → pick_block setting s placements lesson' subject n ≡ some c
    → IsFeasible setting s placements lesson' subject n c
unfolding pick_block
pick_block-IsFeasible setting s placements lesson' subject n c h =
    elim (Option-cases (
      shared_lock (λ c. get s.class_subject_teacher (c, lesson'.subject_id))
        lesson'.school_class_ids none)) [
          | inl split ↦ absurd (ground (arith, h, split))
          | inr (lock, agreed) ↦
              subst (Holds (IsFeasible setting s placements lesson' subject n))
                (rw (agreed, pick_block) at h)
                (Feasible-windows_loop setting s placements lesson' subject n lock 0
                  setting.tb_order none refl tt)
        ]
