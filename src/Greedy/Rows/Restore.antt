-- ===== src/Greedy/Rows/Restore.antt =====
-- Putting a row back after it was taken out (lahc.rs: a ruin that is rolled back).
use klassenzeit.Base.{
  ℕ, suc, ◌-◌, ◌≤◌, ◌<◌, ◌≡◌, refl, Bool, true, false, Option, none, some, List, [], ◌∷◌, ◌++◌,
  ◌==◌, if◌then◌else◌, HashMap, get, update, add, discard, contains, contains-add, contains-discard,
  get-update_at, refreshed, get-modify_or_drop, drop_spent, Eq, any, any_witness, All, All-In,
  All-map, IsDistinct, look-each_class, ◌∙◌, sym, arith, Bool-cases, inl, inr, modify_or_drop,
  each_class, nat_eq, pair_eq, triple_eq, add_u8, add_u32, ap,
}
use klassenzeit.Types.{Lesson, Placement, TimeBlock}
use klassenzeit.Score.Partition.{
  insert_position, remove_position, insert_position_lem, remove_position_lem, insert_ordered,
  remove_ordered, member, member_below, IsWithin, IsPartition, remove_ordered-IsWithin,
}
use klassenzeit.Greedy.State.{GreedyState}
use klassenzeit.Greedy.Rows.{
  leave_lock, leave_hours, join_lock, join_hours, leave_partition, join_partition, is_spent,
  rr_remove_row_bookkeeping, replay_placement,
}
use klassenzeit.Greedy.Rows.Fields.{
  without_row, with_row, rr_remove_row_bookkeeping_lem, replay_placement_lem, pair_apart,
  triple_apart, add_acts,
}

insert_ordered-remove_ordered :
    (lo hi p : ℕ) (ps : List ℕ)
    → IsWithin lo hi ps
    → member ps p ≡ true
    → insert_ordered (remove_ordered ps p) p ≡ ps
insert_ordered-remove_ordered lo hi p [] h m = cc
insert_ordered-remove_ordered lo hi p (x ∷ []) h m = ground arith
insert_ordered-remove_ordered lo hi p (x ∷ y ∷ ys) h m = ground (
  arith,
  insert_ordered-remove_ordered (suc x) hi p (y ∷ ys) h.1,
  member_below (suc x) hi p (y ∷ ys) h.1,
)

-- A position taken out of a partition and inserted again.
insert_position-remove_position :
    (p : ℕ) (ps : List ℕ)
    → IsPartition ps
    → member ps p ≡ true
    → insert_position (remove_position ps p) p ≡ ps
insert_position-remove_position p ps h m = rw (remove_position_lem p ps) (
    insert_position_lem 0 256 p (remove_ordered ps p) (remove_ordered-IsWithin 0 256 p ps h)
    ∙ insert_ordered-remove_ordered 0 256 p ps h m)

-- `put` undoes `take` on the entry of one key, and so the loops over the classes undo each other.
module _ {K R S : Type 0} ⦃e : Eq K⦄ (look : S → K → R) (key : ℕ → K) where
  -- `act c` does `f` to the entry of `key c` and leaves the others alone.
  abbrev Acts : (ℕ → S → S) → (R → R) → Type 0
  Acts act f =
      (c : ℕ) (j : K) (s : S)
      → look (act c s) j ≡ (if e.beq (key c) j then f (look s j) else look s j)

  loops_restore :
      (take put : ℕ → S → S) (g f : R → R)
      → Acts take g
      → Acts put f
      → ((c d : ℕ) (j : K) → e.beq (key c) j ≡ true → e.beq (key d) j ≡ true → (d == c) ≡ true)
      → (cs : List ℕ) → IsDistinct cs
      → (s : S) → All (λ c. f (g (look s (key c))) ≡ look s (key c)) cs
      → (j : K) → look (each_class put cs (each_class take cs s)) j ≡ look s j
  loops_restore take put g f takes puts apart cs d s back j =
      rw
        (
          look-each_class look (λ c j. e.beq (key c) j) put f puts apart cs d j
              (each_class take cs s),
          look-each_class look (λ c j. e.beq (key c) j) take g takes apart cs d j s,
        )
        (elim (Bool-cases (any (λ c. e.beq (key c) j) cs)) [
          | inr other ↦ rw other refl
          | inl named ↦
              let (c, i, same) = any_witness (λ c. e.beq (key c) j) cs named in
              rw (named) (
                rw (← (e.beq_iff (key c) j).0 same)
                  (All-In (λ c. f (g (look s (key c))) ≡ look s (key c)) cs back i))
        ])

-- What the bookkeeping holds of one placement row: its slots, its position in the partitions, and its share
-- of the counters.
pub record IsRecorded (lesson' : Lesson) (row : Placement) (tb : TimeBlock) (s : GreedyState)
    : Type 0 where
  pub teacher_used : contains s.used_teacher (row.teacher_id, row.time_block_id) ≡ true
  pub room_used : contains s.used_room (row.room_id, row.time_block_id) ≡ true
  pub classes_used :
      All (λ c. contains s.used_class (c, row.time_block_id) ≡ true) lesson'.school_class_ids
  pub hours : (h : ℕ) × (get s.hours_by_teacher row.teacher_id ≡ some h) × (1 ≤ h) × (h < 256)
  pub teacher_part :
      (ps : List ℕ) × (get s.teacher_positions (row.teacher_id, tb.day_of_week) ≡ some ps)
      × IsPartition ps
      × (member ps tb.position ≡ true)
  pub class_parts :
      All
        (λ c.
          (ps : List ℕ) × (get s.class_positions (c, tb.day_of_week) ≡ some ps)
          × IsPartition ps
          × (member ps tb.position ≡ true))
        lesson'.school_class_ids
  pub locks :
      All
        (λ c.
          (n : ℕ) × (get s.locked_room (c, tb.day_of_week, lesson'.subject_id)
            ≡ some (row.room_id, n))
          × (1 ≤ n)
          × (n < 4294967296))
        lesson'.school_class_ids
  pub counts :
      All
        (λ c.
          (h : ℕ) × (get s.subject_hours_by_class_day (c, tb.day_of_week, lesson'.subject_id)
            ≡ some h)
          × (1 ≤ h)
          × (h < 256))
        lesson'.school_class_ids

-- The two states answer every lookup alike.
pub record IsSameState (s t : GreedyState) : Type 0 where
  pub used_teacher : (j : ℕ × ℕ) → contains s.used_teacher j ≡ contains t.used_teacher j
  pub used_class : (j : ℕ × ℕ) → contains s.used_class j ≡ contains t.used_class j
  pub used_room : (j : ℕ × ℕ) → contains s.used_room j ≡ contains t.used_room j
  pub hours_by_teacher : (j : ℕ) → get s.hours_by_teacher j ≡ get t.hours_by_teacher j
  pub class_positions : (j : ℕ × ℕ) → get s.class_positions j ≡ get t.class_positions j
  pub teacher_positions : (j : ℕ × ℕ) → get s.teacher_positions j ≡ get t.teacher_positions j
  pub locked_room : (j : ℕ × ℕ × ℕ) → get s.locked_room j ≡ get t.locked_room j
  pub subject_hours_by_class_day :
      (j : ℕ × ℕ × ℕ) → get s.subject_hours_by_class_day j ≡ get t.subject_hours_by_class_day j
  pub lessons_by_class_day : s.lessons_by_class_day ≡ t.lessons_by_class_day
  pub class_subject_teacher : s.class_subject_teacher ≡ t.class_subject_teacher
  pub search_score_slice : s.search_score_slice ≡ t.search_score_slice
  pub canonical_score : s.canonical_score ≡ t.canonical_score
  pub soft_pinned_blocks : s.soft_pinned_blocks ≡ t.soft_pinned_blocks

pick_up :
    (position : ℕ) (ps qs : List ℕ)
    → insert_position qs position ≡ ps
    → refreshed [] (λ ps. insert_position ps position) (if is_spent qs then none else some qs)
      ≡ some ps
pick_up position ps [] same = ap some same
pick_up position ps (q ∷ qs) same = ap some same

position_back :
    (position : ℕ) (o : Option (List ℕ))
    → ((ps : List ℕ) × (o ≡ some ps) × IsPartition ps × (member ps position ≡ true))
    → refreshed []
        (λ ps. insert_position ps position)
        (drop_spent (λ ps. remove_position ps position) is_spent o)
      ≡ o
position_back position o (ps, e, h, m) = rw e (
    pick_up position ps (remove_position ps position)
      (insert_position-remove_position position ps h m))

lock_back :
    (room : ℕ) (o : Option (ℕ × ℕ))
    → ((n : ℕ) × (o ≡ some (room, n)) × (1 ≤ n) × (n < 4294967296))
    → refreshed
        (room, 0)
        (λ lock. (lock.0, add_u32 lock.1 1))
        (drop_spent (λ lock. (lock.0, lock.1 - 1)) (λ lock. lock.1 == 0) o)
      ≡ o
lock_back room o (n, e, lo, hi) = rw e (ground arith)

count_back :
    (o : Option ℕ)
    → ((h : ℕ) × (o ≡ some h) × (1 ≤ h) × (h < 256))
    → refreshed 0 (λ h. add_u8 h 1) (drop_spent (λ h. h - 1) (λ h. h == 0) o) ≡ o
count_back o (h, e, lo, hi) = rw e (ground arith)

hours_back :
    (o : Option ℕ)
    → ((h : ℕ) × (o ≡ some h) × (1 ≤ h) × (h < 256))
    → refreshed 0 (λ h. add_u8 h 1) (drop_spent (λ h. h - 1) (λ h. false) o) ≡ o
hours_back o (h, e, lo, hi) = rw e (ground arith)

-- One entry taken out and put back.
set_back :
    {K : Type 0} ⦃e : Eq K⦄ (k j : K) (s : List K)
    → contains s k ≡ true
    → contains (add k (discard k s)) j ≡ contains s j
set_back ⦃e⦄ k j s held = elim (Bool-cases (e.beq k j)) [
  | inr ne ↦ rw (contains-add k j (discard k s), contains-discard k j s, ne) refl
  | inl eq ↦ rw (contains-add k j (discard k s), eq) (rw (← (e.beq_iff k j).0 eq) (sym held))
]

map_back :
    {K V : Type 0} ⦃e : Eq K⦄ (k j : K) (d : V) (f g : V → V) (spent : V → Bool) (m : HashMap K V)
    → refreshed d f (drop_spent g spent (get m k)) ≡ get m k
    → get (update k d f (modify_or_drop k g spent m)) j ≡ get m j
map_back ⦃e⦄ k j d f g spent m back =
    rw (get-update_at k j d f (modify_or_drop k g spent m), get-modify_or_drop k j g spent m)
      (elim (Bool-cases (e.beq k j)) [
        | inr ne ↦ rw ne refl
        | inl eq ↦ rw eq (rw (← (e.beq_iff k j).0 eq) back)
      ])

slots_back :
    (id : ℕ) (cs : List ℕ)
    → IsDistinct cs
    → (s : List (ℕ × ℕ)) → All (λ c. contains s (c, id) ≡ true) cs
    → (j : ℕ × ℕ)
    → contains (each_class (λ c. add (c, id)) cs (each_class (λ c. discard (c, id)) cs s)) j
      ≡ contains s j
slots_back id cs d s held =
    loops_restore contains (λ c. (c, id)) (λ c. discard (c, id)) (λ c. add (c, id)) (λ b. false)
      (λ b. true) (λ c j s. contains-discard (c, id) j s) (λ c j s. add_acts (c, id) j s)
      (λ c d j. pair_apart id c d j) cs d s (All-map (λ c h. sym h) cs held)

parts_back :
    (tb : TimeBlock) (cs : List ℕ)
    → IsDistinct cs
    → (parts : HashMap (ℕ × ℕ) (List ℕ))
    → All
        (λ c.
          (ps : List ℕ) × (get parts (c, tb.day_of_week) ≡ some ps)
          × IsPartition ps
          × (member ps tb.position ≡ true))
        cs
    → (j : ℕ × ℕ)
    → get
        (each_class
          (λ c. join_partition (c, tb.day_of_week) tb.position)
          cs
          (each_class (λ c. leave_partition (c, tb.day_of_week) tb.position) cs parts))
        j
      ≡ get parts j
parts_back tb cs d parts held =
    loops_restore get (λ c. (c, tb.day_of_week))
      (λ c. leave_partition (c, tb.day_of_week) tb.position)
      (λ c. join_partition (c, tb.day_of_week) tb.position)
      (drop_spent (λ ps. remove_position ps tb.position) is_spent)
      (refreshed [] (λ ps. insert_position ps tb.position))
      (λ c j s.
        get-modify_or_drop (c, tb.day_of_week) j (λ ps. remove_position ps tb.position) is_spent s)
      (λ c j s. get-update_at (c, tb.day_of_week) j [] (λ ps. insert_position ps tb.position) s)
      (λ c d j. pair_apart tb.day_of_week c d j) cs d parts
      (All-map (λ c. position_back tb.position (get parts (c, tb.day_of_week))) cs held)

locks_back :
    (room day subject : ℕ) (cs : List ℕ)
    → IsDistinct cs
    → (locks : HashMap (ℕ × ℕ × ℕ) (ℕ × ℕ))
    → All
        (λ c. (n : ℕ) × (get locks (c, day, subject) ≡ some (room, n)) × (1 ≤ n) × (n < 4294967296))
        cs
    → (j : ℕ × ℕ × ℕ)
    → get
        (each_class
          (λ c. join_lock room (c, day, subject))
          cs
          (each_class (λ c. leave_lock (c, day, subject)) cs locks))
        j
      ≡ get locks j
locks_back room day subject cs d locks held =
    loops_restore get (λ c. (c, day, subject)) (λ c. leave_lock (c, day, subject))
      (λ c. join_lock room (c, day, subject))
      (drop_spent (λ lock. (lock.0, lock.1 - 1)) (λ lock. lock.1 == 0))
      (refreshed (room, 0) (λ lock. (lock.0, add_u32 lock.1 1)))
      (λ c j s.
        get-modify_or_drop (c, day, subject) j (λ lock. (lock.0, lock.1 - 1)) (λ lock. lock.1 == 0)
          s)
      (λ c j s. get-update_at (c, day, subject) j (room, 0) (λ lock. (lock.0, add_u32 lock.1 1)) s)
      (λ c d j. triple_apart day subject c d j) cs d locks
      (All-map (λ c. lock_back room (get locks (c, day, subject))) cs held)

counts_back :
    (day subject : ℕ) (cs : List ℕ)
    → IsDistinct cs
    → (hours : HashMap (ℕ × ℕ × ℕ) ℕ)
    → All (λ c. (h : ℕ) × (get hours (c, day, subject) ≡ some h) × (1 ≤ h) × (h < 256)) cs
    → (j : ℕ × ℕ × ℕ)
    → get
        (each_class
          (λ c. join_hours (c, day, subject))
          cs
          (each_class (λ c. leave_hours (c, day, subject)) cs hours))
        j
      ≡ get hours j
counts_back day subject cs d hours held =
    loops_restore get (λ c. (c, day, subject)) (λ c. leave_hours (c, day, subject))
      (λ c. join_hours (c, day, subject)) (drop_spent (λ h. h - 1) (λ h. h == 0))
      (refreshed 0 (λ h. add_u8 h 1))
      (λ c j s. get-modify_or_drop (c, day, subject) j (λ h. h - 1) (λ h. h == 0) s)
      (λ c j s. get-update_at (c, day, subject) j 0 (λ h. add_u8 h 1) s)
      (λ c d j. triple_apart day subject c d j) cs d hours
      (All-map (λ c. count_back (get hours (c, day, subject))) cs held)

-- A row that the bookkeeping records, of a lesson with distinct classes, can be taken out and replayed: both
-- calls succeed, the row is appended to the placements, and the bookkeeping answers every lookup as before.
pub replay_placement-rr_remove_row_bookkeeping :
    (lesson' : Lesson) (row : Placement) (tb_lookup : HashMap ℕ TimeBlock) (tb : TimeBlock)
    (placements : List Placement) (s : GreedyState)
    → get tb_lookup row.time_block_id ≡ some tb
    → IsDistinct lesson'.school_class_ids
    → IsRecorded lesson' row tb s
    → (s' s'' : GreedyState) × (rr_remove_row_bookkeeping lesson' row tb_lookup s ≡ some s')
      × (replay_placement lesson' row tb_lookup placements s'
          ≡ some (placements ++ (row ∷ []), s''))
      × IsSameState s'' s
replay_placement-rr_remove_row_bookkeeping lesson' row tb_lookup tb placements s found distinct
      recorded =
    let s' = without_row lesson' row tb s in
    (
      s',
      with_row lesson' row tb s',
      rr_remove_row_bookkeeping_lem lesson' row tb_lookup tb s found,
      replay_placement_lem lesson' row tb_lookup tb placements s' found,
      record {
        used_teacher = λ j.
            set_back (row.teacher_id, row.time_block_id) j s.used_teacher recorded.teacher_used;
        used_class =
            slots_back row.time_block_id lesson'.school_class_ids distinct s.used_class
              recorded.classes_used;
        used_room = λ j. set_back (row.room_id, row.time_block_id) j s.used_room recorded.room_used;
        hours_by_teacher = λ j.
            map_back row.teacher_id j 0 (λ h. add_u8 h 1) (λ h. h - 1) (λ h. false)
              s.hours_by_teacher
              (hours_back (get s.hours_by_teacher row.teacher_id) recorded.hours);
        class_positions =
            parts_back tb lesson'.school_class_ids distinct s.class_positions recorded.class_parts;
        teacher_positions = λ j.
            map_back (row.teacher_id, tb.day_of_week) j [] (λ ps. insert_position ps tb.position)
              (λ ps. remove_position ps tb.position) is_spent s.teacher_positions
              (position_back tb.position (get s.teacher_positions (row.teacher_id, tb.day_of_week))
                recorded.teacher_part);
        locked_room =
            locks_back row.room_id tb.day_of_week lesson'.subject_id lesson'.school_class_ids
              distinct s.locked_room recorded.locks;
        subject_hours_by_class_day =
            counts_back tb.day_of_week lesson'.subject_id lesson'.school_class_ids distinct
              s.subject_hours_by_class_day recorded.counts;
        lessons_by_class_day = refl;
        class_subject_teacher = refl;
        search_score_slice = refl;
        canonical_score = refl;
        soft_pinned_blocks = refl;
      },
    )
