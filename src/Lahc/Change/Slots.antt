-- ===== src/Lahc/Change/Slots.antt =====
-- The slots after the Change move.
use klassenzeit.Base.{
  ℕ, ◌≡◌, refl, true, false, List, [], ◌∷◌, ◌==◌, if◌then◌else◌, any, IsDistinct, Eq, contains,
  contains-add, contains-discard, add, discard, each_class, look-each_class, pair_eq, arith, ap,
  ◌∙◌,
}
use klassenzeit.Types.{Placement, TimeBlock}
use klassenzeit.Greedy.State.{GreedyState}
use klassenzeit.Greedy.Rows.{leave_partition, join_partition}
use klassenzeit.Lahc.Change.{move_part, move_slot, move_lock, move_counts, apply_change_move}

-- The three used sets, which the loops over partitions, locks and counters leave alone.
abbrev pub HasSlots : List (ℕ × ℕ) → List (ℕ × ℕ) → List (ℕ × ℕ) → GreedyState → Type 0
HasSlots ts cs rs s = (s.used_teacher ≡ ts) × (s.used_class ≡ cs) × (s.used_room ≡ rs)

parts_keep :
    (old_tb new_tb : TimeBlock) (cs : List ℕ) (s : GreedyState)
    → HasSlots s.used_teacher s.used_class s.used_room (each_class (move_part old_tb new_tb) cs s)
unfolding each_class
parts_keep old_tb new_tb [] s = (refl, refl, refl)
parts_keep old_tb new_tb (c ∷ cs) s = parts_keep old_tb new_tb cs (move_part old_tb new_tb c s)

locks_keep :
    (old_tb new_tb : TimeBlock) (room subject : ℕ) (cs : List ℕ) (s : GreedyState)
    → HasSlots s.used_teacher s.used_class s.used_room
        (each_class (move_lock old_tb new_tb room subject) cs s)
unfolding each_class
locks_keep old_tb new_tb room subject [] s = (refl, refl, refl)
locks_keep old_tb new_tb room subject (c ∷ cs) s =
    locks_keep old_tb new_tb room subject cs (move_lock old_tb new_tb room subject c s)

counts_keep :
    (old_tb new_tb : TimeBlock) (subject : ℕ) (cs : List ℕ) (s : GreedyState)
    → HasSlots s.used_teacher s.used_class s.used_room
        (each_class (move_counts old_tb new_tb subject) cs s)
unfolding each_class
counts_keep old_tb new_tb subject [] s = (refl, refl, refl)
counts_keep old_tb new_tb subject (c ∷ cs) s =
    counts_keep old_tb new_tb subject cs (move_counts old_tb new_tb subject c s)

slots_move :
    (old_tb new_tb : TimeBlock) (cs : List ℕ) (s : GreedyState)
    → HasSlots s.used_teacher
        (each_class (λ c u. add (c, new_tb.id) (discard (c, old_tb.id) u)) cs s.used_class)
        s.used_room
        (each_class (move_slot old_tb new_tb) cs s)
unfolding each_class
slots_move old_tb new_tb [] s = (refl, refl, refl)
slots_move old_tb new_tb (c ∷ cs) s = slots_move old_tb new_tb cs (move_slot old_tb new_tb c s)

pub apply_change_move-HasSlots :
    (i : ℕ) (old_p : Placement) (old_tb new_tb : TimeBlock) (room : ℕ) (cs : List ℕ)
    (teacher subject : ℕ) (placements : List Placement) (s : GreedyState)
    → HasSlots
        (add (teacher, new_tb.id) (discard (teacher, old_tb.id) s.used_teacher))
        (each_class (λ c u. add (c, new_tb.id) (discard (c, old_tb.id) u)) cs s.used_class)
        (add (room, new_tb.id) (discard (old_p.room_id, old_tb.id) s.used_room))
        (apply_change_move i old_p old_tb new_tb room cs teacher subject placements s).1
unfolding apply_change_move
apply_change_move-HasSlots i old_p old_tb new_tb room cs teacher subject placements s =
    let s1 = each_class (move_part old_tb new_tb) cs s in
    let s2 : GreedyState = record s1 {
      teacher_positions =
          join_partition (teacher, new_tb.day_of_week) new_tb.position
            (leave_partition (teacher, old_tb.day_of_week) old_tb.position s1.teacher_positions);
      used_teacher = add (teacher, new_tb.id) (discard (teacher, old_tb.id) s1.used_teacher);
    } in
    let s3 = each_class (move_slot old_tb new_tb) cs s2 in
    let s4 : GreedyState = record s3 {
      used_room = add (room, new_tb.id) (discard (old_p.room_id, old_tb.id) s3.used_room);
    } in
    let s5 = each_class (move_lock old_tb new_tb room subject) cs s4 in
    let (t1, c1, r1) = parts_keep old_tb new_tb cs s in
    let (t3, c3, r3) = slots_move old_tb new_tb cs s2 in
    let (t5, c5, r5) = locks_keep old_tb new_tb room subject cs s4 in
    let (t6, c6, r6) = counts_keep old_tb new_tb subject cs s5 in
    (
      t6 ∙ t5 ∙ t3 ∙ ap (λ u. add (teacher, new_tb.id) (discard (teacher, old_tb.id) u)) t1,
      c6 ∙ c5 ∙ c3 ∙ ap (each_class (λ c u. add (c, new_tb.id) (discard (c, old_tb.id) u)) cs) c1,
      r6 ∙ r5 ∙ ap (λ u. add (room, new_tb.id) (discard (old_p.room_id, old_tb.id) u)) (r3 ∙ r1),
    )

-- A slot moved row from one key to another.
pub contains-moved :
    {K : Type 0} ⦃e : Eq K⦄ (k k' j : K) (u : List K)
    → contains (add k' (discard k u)) j
      ≡ (if e.beq k' j then true else (if e.beq k j then false else contains u j))
contains-moved ⦃e⦄ k k' j u =
    rw (contains-add k' j (discard k u), contains-discard k j u) (ground arith)

pub contains-all_moved :
    (a b : ℕ) (cs : List ℕ) (j : ℕ × ℕ) (u : List (ℕ × ℕ))
    → IsDistinct cs
    → contains (each_class (λ c v. add (c, b) (discard (c, a) v)) cs u) j ≡ (
        if any (λ c. c == j.0) cs
        then (if b == j.1 then true else (if a == j.1 then false else contains u j))
        else contains u j)
contains-all_moved a b cs j u distinct =
    look-each_class {K = Unit {0}} (λ v k. contains v j) (λ c k. c == j.0)
      (λ c v. add (c, b) (discard (c, a) v))
      (λ old. if b == j.1 then true else (if a == j.1 then false else old))
      (λ c k v. contains-moved (c, a) (c, b) j v ∙ ground arith) (λ c d k h g. ground arith) cs
      distinct tt u
