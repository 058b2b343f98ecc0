-- ===== src/Lahc/Change/Consistent.antt =====
-- The Change move keeps bookkeeping and placements consistent.
use klassenzeit.Base.{
  ℕ, ◌≡◌, refl, Bool, true, false, ◌&&◌, ◌||◌, some, List, [], ◌∷◌, ◌++◌, ◌==◌, if◌then◌else◌,
  length, any, All, IsDistinct, HashMap, get, contains, add, discard, each_class, nat_eq, pair_eq,
  arith, ap, sym, ◌∙◌, subst,
}
use klassenzeit.Types.{Lesson, Placement, TimeBlock}
use klassenzeit.Greedy.State.{GreedyState}
use klassenzeit.Greedy.Tracks.{
  Seat, seat_of, by_teacher, in_room, of_class, clash, IsSeated, IsApart,
}
use klassenzeit.Greedy.Tracks.Apart.{
  any-mid, IsApart-others, IsApart-insert, no_teacher, no_room, no_class,
}
use klassenzeit.Greedy.Seed.{rows_of, rows_of-known}
use klassenzeit.Greedy.Lesson.Accounted.{IsConsistent, rows_of-append}
use klassenzeit.Greedy.Place.Apart.{nothing_clashes, same_any}
use klassenzeit.Lahc.Change.{moved_row, replace_at, apply_change_move}
use klassenzeit.Lahc.Change.Slots.{
  HasSlots, apply_change_move-HasSlots, contains-moved, contains-all_moved,
}

-- What a seat's own key contributes, before and after.
class_step :
    (named at_old at_new others : Bool)
    → (named ≡ true → at_old ≡ true → others ≡ false)
    → (if named
        then (if at_new then true else (if at_old then false else ((named && at_old) || others)))
        else ((named && at_old) || others))
      ≡ ((named && at_new) || others)
class_step named at_old at_new others alone = ground (arith, alone)

key_step :
    (at_old at_new others : Bool)
    → (at_old ≡ true → others ≡ false)
    → (if at_new then true else (if at_old then false else (at_old || others))) ≡ (at_new || others)
key_step at_old at_new others alone = ground (arith, alone)

any-both : (p : ℕ → Bool) (b : Bool) (cs : List ℕ) → any (λ c. p c && b) cs ≡ (any p cs && b)
any-both p b [] = refl
any-both p b (c ∷ cs) = ground (arith, any-both p b cs)

same_key : (a b : ℕ) (j : ℕ × ℕ) → (a == j.0) ≡ true → (b == j.1) ≡ true → ◌≡◌ {A = ℕ × ℕ} (a, b) j
same_key a b j h g = ground arith

-- The seat of a lesson's row at another block and in another room.
abbrev reseat : Seat → ℕ → ℕ → ℕ → ℕ → Seat
reseat r block room day position = record r {
  block = block;
  room = room;
  day = day;
  position = position;
}

module _ (xs : List Seat) (r : Seat) (zs : List Seat) (block room day position : ℕ)
    (clear_xs : All (λ q. clash q r ≡ false) xs) (clear_zs : All (λ q. clash q r ≡ false) zs)
    (s : GreedyState) (seated : IsSeated (xs ++ (r ∷ zs)) s) where
  abbrev after : List Seat
  after = xs ++ (reseat r block room day position ∷ zs)

  teachers_moved :
      (j : ℕ × ℕ)
      → contains (add (r.teacher, block) (discard (r.teacher, r.block) s.used_teacher)) j
        ≡ any (by_teacher j) after
  teachers_moved j =
      rw
        (
          contains-moved (r.teacher, r.block) (r.teacher, block) j s.used_teacher,
          seated.teachers j,
          any-mid (by_teacher j) xs r zs,
          any-mid (by_teacher j) xs (reseat r block room day position) zs,
        )
        (key_step (pair_eq.beq (r.teacher, r.block) j) (pair_eq.beq (r.teacher, block) j)
          (any (by_teacher j) xs || any (by_teacher j) zs)
          (λ h.
            subst (λ k. (any (by_teacher k) xs || any (by_teacher k) zs) ≡ false)
              ((pair_eq.beq_iff (r.teacher, r.block) j).0 h)
              (ground (arith, no_teacher r xs clear_xs, no_teacher r zs clear_zs))))

  rooms_moved :
      (j : ℕ × ℕ)
      → contains (add (room, block) (discard (r.room, r.block) s.used_room)) j
        ≡ any (in_room j) after
  rooms_moved j =
      rw
        (
          contains-moved (r.room, r.block) (room, block) j s.used_room,
          seated.rooms j,
          any-mid (in_room j) xs r zs,
          any-mid (in_room j) xs (reseat r block room day position) zs,
        )
        (key_step (pair_eq.beq (r.room, r.block) j) (pair_eq.beq (room, block) j)
          (any (in_room j) xs || any (in_room j) zs)
          (λ h.
            subst (λ k. (any (in_room k) xs || any (in_room k) zs) ≡ false)
              ((pair_eq.beq_iff (r.room, r.block) j).0 h)
              (ground (arith, no_room r xs clear_xs, no_room r zs clear_zs))))

  classes_moved :
      IsDistinct r.classes
      → (j : ℕ × ℕ)
      → contains
          (each_class (λ c u. add (c, block) (discard (c, r.block) u)) r.classes s.used_class)
          j
        ≡ any (of_class j) after
  classes_moved distinct j =
      rw
        (
          contains-all_moved r.block block r.classes j s.used_class distinct,
          seated.classes j,
          any-mid (of_class j) xs r zs,
          any-mid (of_class j) xs (reseat r block room day position) zs,
          any-both (λ c. c == j.0) (r.block == j.1) r.classes,
          any-both (λ c. c == j.0) (block == j.1) r.classes,
        )
        (class_step (any (λ c. c == j.0) r.classes) (r.block == j.1) (block == j.1)
          (any (of_class j) xs || any (of_class j) zs)
          (λ named b.
            subst (λ k. (any (of_class k) xs || any (of_class k) zs) ≡ false)
              (same_key j.0 r.block j (ground arith) b)
              (ground (arith, no_class r j.0 xs named clear_xs, no_class r j.0 zs named clear_zs))))

replace_at-length :
    (pre : List Placement) (p : Placement) (post : List Placement) (q : Placement)
    → replace_at (pre ++ (p ∷ post)) (length pre) q ≡ pre ++ (q ∷ post)
replace_at-length [] p post q = refl
replace_at-length (x ∷ pre) p post q = ap (λ ps. x ∷ ps) (replace_at-length pre p post q)

All-sides :
    (P : Seat → Type 0) (xs : List Seat) (r : Seat) (zs : List Seat)
    → All P (xs ++ (r ∷ zs))
    → All P xs × All P zs
All-sides P [] r zs h = (tt, h.1)
All-sides P (x ∷ xs) r zs h =
    let (before, after) = All-sides P xs r zs h.1 in ((h.0, before), after)

-- The seats of placements around one whose lesson and block are known.
rows_of-mid :
    (lessons : HashMap ℕ Lesson) (blocks : HashMap ℕ TimeBlock) (l : Lesson) (p : Placement)
    (tb : TimeBlock) (pre post : List Placement)
    → get lessons p.lesson_id ≡ some l
    → get blocks p.time_block_id ≡ some tb
    → rows_of lessons blocks (pre ++ (p ∷ post))
      ≡ rows_of lessons blocks pre ++ (seat_of l p tb ∷ rows_of lessons blocks post)
rows_of-mid lessons blocks l p tb pre post found_l found_tb =
    rows_of-append lessons blocks pre (p ∷ post)
    ∙ ap (λ rows. rows_of lessons blocks pre ++ rows)
        (sym (rows_of-known lessons blocks l p tb post found_l found_tb))

apply_change_move-places :
    (i : ℕ) (old_p : Placement) (old_tb new_tb : TimeBlock) (room : ℕ) (cs : List ℕ) (subject : ℕ)
    (pre post : List Placement) (s : GreedyState)
    → i ≡ length pre
    → (apply_change_move i old_p old_tb new_tb room cs old_p.teacher_id subject
        (pre ++ (old_p ∷ post))
        s).0
      ≡ pre ++ (moved_row old_p new_tb room old_p.teacher_id ∷ post)
unfolding apply_change_move
apply_change_move-places i old_p old_tb new_tb room cs subject pre post s at =
    rw at (replace_at-length pre old_p post (moved_row old_p new_tb room old_p.teacher_id))

-- When the target block is free for the lesson's teacher and classes and for the new room, the Change move of
-- one placement replaces that placement alone, and bookkeeping and placements are consistent again: the used
-- sets are those of the placements, and no two placements clash. The lesson has distinct classes.
pub apply_change_move-IsConsistent :
    (lessons : HashMap ℕ Lesson) (blocks : HashMap ℕ TimeBlock) (lesson' : Lesson)
    (pre : List Placement) (old_p : Placement) (post : List Placement) (old_tb new_tb : TimeBlock)
    (room : ℕ) (s : GreedyState)
    → get lessons old_p.lesson_id ≡ some lesson'
    → get blocks old_p.time_block_id ≡ some old_tb
    → old_tb.id ≡ old_p.time_block_id
    → get blocks new_tb.id ≡ some new_tb
    → IsDistinct lesson'.school_class_ids
    → contains s.used_teacher (old_p.teacher_id, new_tb.id) ≡ false
    → any (λ c. contains s.used_class (c, new_tb.id)) lesson'.school_class_ids ≡ false
    → contains s.used_room (room, new_tb.id) ≡ false
    → IsConsistent lessons blocks (pre ++ (old_p ∷ post)) s
    → (after : List Placement × GreedyState) × (apply_change_move
          (length pre)
          old_p
          old_tb
          new_tb
          room
          lesson'.school_class_ids
          old_p.teacher_id
          lesson'.subject_id
          (pre ++ (old_p ∷ post))
          s
        ≡ after)
      × (after.0 ≡ pre ++ (moved_row old_p new_tb room old_p.teacher_id ∷ post))
      × IsConsistent lessons blocks after.0 after.1
apply_change_move-IsConsistent lessons blocks lesson' pre old_p post old_tb new_tb room s found_l
      found_old same_id found_new distinct free_t free_c free_r consistent =
    let cs = lesson'.school_class_ids in
    let new_p = moved_row old_p new_tb room old_p.teacher_id in
    let xs = rows_of lessons blocks pre in
    let zs = rows_of lessons blocks post in
    let r = seat_of lesson' old_p old_tb in
    let r' = seat_of lesson' new_p new_tb in
    let before = rows_of-mid lessons blocks lesson' old_p old_tb pre post found_l found_old in
    let seated = subst (λ rows. IsSeated rows s) before consistent.seated in
    let (clear_xs, clear_zs, rest) =
      IsApart-others xs r zs (subst IsApart before consistent.apart) in
    let (new_xs, new_zs) =
      All-sides (λ q. clash q r' ≡ false) xs r zs
        (nothing_clashes r' (xs ++ (r ∷ zs))
          (sym (seated.teachers (old_p.teacher_id, new_tb.id)) ∙ free_t)
          (sym (seated.rooms (room, new_tb.id)) ∙ free_r)
          (sym (
              same_any (λ c. contains s.used_class (c, new_tb.id))
                (λ c. any (of_class (c, new_tb.id)) (xs ++ (r ∷ zs))) cs
                (λ c. seated.classes (c, new_tb.id)))
            ∙ free_c)) in
    let out =
      apply_change_move (length pre) old_p old_tb new_tb room cs old_p.teacher_id lesson'.subject_id
        (pre ++ (old_p ∷ post)) s in
    let (ts, us, rs) =
      subst
        (λ id.
          HasSlots
            (add (old_p.teacher_id, new_tb.id) (discard (old_p.teacher_id, id) s.used_teacher))
            (each_class (λ c u. add (c, new_tb.id) (discard (c, id) u)) cs s.used_class)
            (add (room, new_tb.id) (discard (old_p.room_id, id) s.used_room)) out.1)
        same_id
        (apply_change_move-HasSlots (length pre) old_p old_tb new_tb room cs old_p.teacher_id
          lesson'.subject_id (pre ++ (old_p ∷ post)) s) in
    let placed_at =
      apply_change_move-places (length pre) old_p old_tb new_tb room cs lesson'.subject_id pre post
        s refl in
    let rows : xs ++ (r' ∷ zs) ≡ rows_of lessons blocks out.0 =
      sym (rows_of-mid lessons blocks lesson' new_p new_tb pre post found_l found_new)
      ∙ ap (rows_of lessons blocks) (sym placed_at) in
    let day = new_tb.day_of_week in
    let position = new_tb.position in
    (
      out,
      refl,
      placed_at,
      record {
        seated =
            subst (λ rows. IsSeated rows out.1) rows
              (record {
                teachers = λ j. rw ts (
                    teachers_moved xs r zs new_tb.id room day position clear_xs clear_zs s seated
                      j);
                classes = λ j. rw us (
                    classes_moved xs r zs new_tb.id room day position clear_xs clear_zs s seated
                      distinct j);
                rooms = λ j.
                    rw rs (
                      rooms_moved xs r zs new_tb.id room day position clear_xs clear_zs s seated j);
              });
        apart = subst IsApart rows (IsApart-insert xs r' zs new_xs new_zs rest);
      },
    )
