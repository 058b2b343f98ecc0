-- ===== src/Greedy/Place/Apart.antt =====
-- A placed block keeps the used sets those of the placements and double-books nothing.
use klassenzeit.Base.{
  ℕ, ◌≡◌, refl, Bool, false, ◌||◌, List, [], ◌∷◌, ◌++◌, map, any, All, IsDistinct, contains, add,
  each_class, nat_eq, pair_eq, triple_eq, arith, append_later, append_nil, ap, sym, ◌∙◌,
}
use klassenzeit.Types.{Lesson, Placement, TimeBlock}
use klassenzeit.Greedy.State.{GreedyState}
use klassenzeit.Greedy.Tracks.{Seat, seat_of, by_teacher, in_room, of_class, IsSeated, clash}
use klassenzeit.Greedy.Tracks.Enter.{slot_entered, classes_entered}
use klassenzeit.Greedy.Place.{Setting, BlockCandidate, class_busy, room_busy, teacher_busy}
use klassenzeit.Greedy.Place.Commit.{mark_class, mark_block, placed, push_blocks, enter_class}

-- The rows of the candidate.
abbrev pub new_row : Lesson → BlockCandidate → TimeBlock → Seat
new_row lesson' c tb = seat_of lesson' (placed lesson' c tb) tb

pub mark_classes :
    (id : ℕ) (cs : List ℕ) (s : GreedyState)
    → each_class (mark_class id) cs s
      ≡ record s { used_class = each_class (λ c. add (c, id)) cs s.used_class }
unfolding each_class
mark_classes id [] s = refl
mark_classes id (c ∷ cs) s = mark_classes id cs (mark_class id c s)

mark_block-IsSeated :
    (lesson' : Lesson) (c : BlockCandidate) (tb : TimeBlock) (rows : List Seat) (s : GreedyState)
    → IsDistinct lesson'.school_class_ids
    → IsSeated rows s
    → IsSeated (rows ++ (new_row lesson' c tb ∷ [])) (mark_block lesson' c tb s)
mark_block-IsSeated lesson' c tb rows s distinct old =
    let r = new_row lesson' c tb in
    rw
      (mark_classes tb.id lesson'.school_class_ids
        (record s { used_teacher = add (c.teacher_id, tb.id) s.used_teacher }))
      (record {
        teachers = λ j.
            slot_entered (by_teacher j) rows r s.used_teacher (c.teacher_id, tb.id) j
              (old.teachers j) refl;
        classes = λ j. classes_entered rows r s.used_class j distinct (old.classes j);
        rooms = λ j.
            slot_entered (in_room j) rows r s.used_room (c.room_id, tb.id) j (old.rooms j) refl;
      })

pub push_blocks-IsSeated :
    (lesson' : Lesson) (c : BlockCandidate) (blocks : List TimeBlock) (rows : List Seat)
    (placements : List Placement) (s : GreedyState)
    → IsDistinct lesson'.school_class_ids
    → IsSeated rows s
    → ((push_blocks lesson' c blocks placements s).0 ≡ placements ++ map (placed lesson' c) blocks)
      × IsSeated
          (rows ++ map (new_row lesson' c) blocks)
          (push_blocks lesson' c blocks placements s).1
      × ((push_blocks lesson' c blocks placements s).1.hours_by_teacher ≡ s.hours_by_teacher)
unfolding push_blocks
push_blocks-IsSeated lesson' c [] rows placements s distinct old =
    (sym (append_nil placements), rw (append_nil rows) old, refl)
push_blocks-IsSeated lesson' c (tb ∷ tbs) rows placements s distinct old =
    let (appended, seated, hours) =
      push_blocks-IsSeated lesson' c tbs (rows ++ (new_row lesson' c tb ∷ []))
        (placements ++ (placed lesson' c tb ∷ [])) (mark_block lesson' c tb s) distinct
        (mark_block-IsSeated lesson' c tb rows s distinct old) in
    (
      appended ∙ append_later placements (placed lesson' c tb) (map (placed lesson' c) tbs),
      rw (← append_later rows (new_row lesson' c tb) (map (new_row lesson' c) tbs)) seated,
      hours
          ∙ ap (λ t. t.hours_by_teacher)
              (mark_classes tb.id lesson'.school_class_ids
                (record s { used_teacher = add (c.teacher_id, tb.id) s.used_teacher })),
    )

-- The loop that enters the classes leaves the sets and the teachers' hours alone.
pub enter_classes :
    (lesson' : Lesson) (n : ℕ) (c : BlockCandidate) (cs : List ℕ) (s : GreedyState)
    → let t = each_class (enter_class lesson' n c) cs s in
      (t.used_teacher ≡ s.used_teacher)
      × (t.used_class ≡ s.used_class)
      × (t.used_room ≡ s.used_room)
      × (t.hours_by_teacher ≡ s.hours_by_teacher)
unfolding each_class
enter_classes lesson' n c [] s = (refl, refl, refl, refl)
enter_classes lesson' n c (c' ∷ cs) s = enter_classes lesson' n c cs (enter_class lesson' n c c' s)

any-or :
    (p q : ℕ → Bool) (cs : List ℕ)
    → any (λ c. p c || q c) cs ≡ false
    → (any p cs ≡ false) × (any q cs ≡ false)
any-or p q [] h = (refl, refl)
any-or p q (c ∷ cs) h = ground (arith, any-or p q cs)

-- No row of a list clashes with a row whose teacher, room and classes have none in its block.
pub nothing_clashes :
    (r : Seat) (rows : List Seat)
    → any (by_teacher (r.teacher, r.block)) rows ≡ false
    → any (in_room (r.room, r.block)) rows ≡ false
    → any (λ c. any (of_class (c, r.block)) rows) r.classes ≡ false
    → All (λ q. clash q r ≡ false) rows
nothing_clashes r [] ht hr hc = tt
nothing_clashes r (q ∷ qs) ht hr hc =
    let (here_free, later_free) =
      any-or (λ c. of_class (c, r.block) q) (λ c. any (of_class (c, r.block)) qs) r.classes hc in
    (
      ground (arith, ht, hr, here_free),
      nothing_clashes r qs (ground (arith, ht)) (ground (arith, hr)) later_free,
    )

pub same_any : (p q : ℕ → Bool) (cs : List ℕ) → ((c : ℕ) → p c ≡ q c) → any p cs ≡ any q cs
same_any p q [] h = refl
same_any p q (c ∷ cs) h = rw (h c, same_any p q cs h) refl

-- A slot that is free in the used sets is clear of the rows whose sets they are.
pub free_slot :
    (setting : Setting) (lesson' : Lesson) (c : BlockCandidate) (rows : List Seat) (s : GreedyState)
    → IsSeated rows s
    → (blocks : List TimeBlock) → any (class_busy s lesson'.school_class_ids) blocks ≡ false
    → any (room_busy setting s c.room_id) blocks ≡ false
    → any (teacher_busy setting s c.teacher_id) blocks ≡ false
    → All (λ r. All (λ q. clash q r ≡ false) rows) (map (new_row lesson' c) blocks)
free_slot setting lesson' c rows s seated [] hc hr ht = tt
free_slot setting lesson' c rows s seated (tb ∷ tbs) hc hr ht = (
  nothing_clashes (new_row lesson' c tb) rows
      (sym (seated.teachers (c.teacher_id, tb.id)) ∙ ground (arith, ht))
      (sym (seated.rooms (c.room_id, tb.id)) ∙ ground (arith, hr))
      (sym (
          same_any (λ d. contains s.used_class (d, tb.id)) (λ d. any (of_class (d, tb.id)) rows)
            lesson'.school_class_ids (λ d. seated.classes (d, tb.id)))
        ∙ ground (arith, hc)),
  free_slot setting lesson' c rows s seated tbs (ground (arith, hc)) (ground (arith, hr))
      (ground (arith, ht)),
)
