-- ===== src/Ordering/FastPath.antt =====
-- The fast path of the eligibility counts.
use klassenzeit.Base.{
  ℕ, zero, suc, ◌+◌, ◌*◌, ◌≤◌, ◌<◌, min, ◌≡◌, refl, Bool, true, false, ◌&&◌, List, [], ◌∷◌, arith,
  ◌==◌, leb, ltb, if◌then◌else◌, filter, length, sat_add, sat_mul, as_u32, u32_max, Bool-cases, inl,
  inr, sym, ◌∙◌, Option, none, some,
}
use klassenzeit.Types.{Problem, Lesson, TimeBlock, Room, assigned_teacher_id}
use klassenzeit.Index.{new, room_suits_subject}
use klassenzeit.Index.Relations.{teacher_blocked-new, room_blocked-new}
use klassenzeit.Ordering.{
  Day, count_rooms, same_room_eligibility_no_blocks, run_fits, viable_rooms, viable_days,
  same_room_eligibility, is_free, home_rooms_contains, lesson_home_rooms,
}

-- The numbers of suitable rooms, and of those at home.
abbrev suitable : (ℕ → Bool) → List Room → ℕ
suitable p [] = 0
suitable p (room ∷ rooms) = (if p room.id then 1 else 0) + suitable p rooms

abbrev cut : ℕ × ℕ → ℕ × ℕ
cut counts = (min counts.0 u32_max, min counts.1 u32_max)

pair_path : {a a' b b' : ℕ} → a ≡ a' → b ≡ b' → ◌≡◌ {A = ℕ × ℕ} (a, b) (a', b')
pair_path p q = rw (p, q) refl

run_fits-all_free :
    (free : TimeBlock → Bool) (n run : ℕ) (tbs : List TimeBlock)
    → ((tb : TimeBlock) → free tb ≡ true)
    → run < n
    → run_fits free n tbs run ≡ leb n (run + length tbs)
unfolding run_fits
run_fits-all_free free n run [] all h = ground arith
run_fits-all_free free n run (tb ∷ tbs) all h = rw (all tb) (elim (Bool-cases (leb n (suc run))) [
  | inl e ↦ rw e (ground arith)
  | inr e ↦ rw e (run_fits-all_free free n (suc run) tbs all (ground arith) ∙ ground arith)
])

viable_rooms-all :
    (suits home fits : ℕ → Bool) (rooms : List Room) (v h : ℕ)
    → ((room : ℕ) → fits room ≡ true)
    → v ≤ u32_max
    → h ≤ u32_max
    → viable_rooms suits home fits rooms (v, h)
      ≡ cut (v + suitable suits rooms, h + suitable (λ room. suits room && home room) rooms)
unfolding viable_rooms
viable_rooms-all suits home fits [] v h all hv hh = pair_path (omega arith) (omega arith)
viable_rooms-all suits home fits (room ∷ rooms) v h all hv hh =
    rw (all room.id) (elim (Bool-cases (suits room.id)) [
      | inr e ↦ rw e (
          viable_rooms-all suits home fits rooms v h all hv hh
          ∙ pair_path (omega arith) (omega arith))
      | inl e ↦ elim (Bool-cases (home room.id)) [
        | inl e' ↦
            rw (e, e')
              (viable_rooms-all suits home fits rooms (sat_add v 1) (sat_add h 1) all (omega arith)
                  (omega arith)
                ∙ pair_path (omega arith) (omega arith))
        | inr e' ↦
            rw (e, e')
              (viable_rooms-all suits home fits rooms (sat_add v 1) h all (omega arith) hh
                ∙ pair_path (omega arith) (omega arith))
      ]
    ])

count_rooms_lem :
    (suits home : ℕ → Bool) (rooms : List Room) (v h : ℕ)
    → count_rooms suits home rooms (v, h) ≡ viable_rooms suits home (λ room. true) rooms (v, h)
unfolding count_rooms viable_rooms
count_rooms_lem suits home [] v h = refl
count_rooms_lem suits home (room ∷ rooms) v h = elim (Bool-cases (suits room.id)) [
  | inl e ↦
      rw e
        (count_rooms_lem suits home rooms (sat_add v 1) (if home room.id then sat_add h 1 else h))
  | inr e ↦ rw e (count_rooms_lem suits home rooms v h)
]

abbrev days_of : ℕ → List Day → ℕ
days_of n days = length (filter (λ d. leb n (length d.1)) days)

more_days : (v d s : ℕ) → min (min (v + s) u32_max + d * s) u32_max ≡ min (v + suc d * s) u32_max
more_days v d s = omega arith

viable_days-all :
    (suits home : ℕ → Bool) (fits : ℕ → List TimeBlock → Bool) (n : ℕ) (rooms : List Room)
    (days : List Day) (v h : ℕ)
    → ((room : ℕ) (tbs : List TimeBlock) → leb n (length tbs) ≡ true → fits room tbs ≡ true)
    → v ≤ u32_max
    → h ≤ u32_max
    → viable_days suits home fits n rooms days (v, h)
      ≡ cut (
        v + days_of n days * suitable suits rooms,
        h + days_of n days * suitable (λ room. suits room && home room) rooms,
      )
unfolding viable_days
viable_days-all suits home fits n rooms [] v h all hv hh = pair_path (omega arith) (omega arith)
viable_days-all suits home fits n rooms ((day, tbs) ∷ days) v h all hv hh =
    let s = suitable suits rooms in
    let t = suitable (λ room. suits room && home room) rooms in
    elim (Bool-cases (leb n (length tbs))) [
      | inl e ↦
          let enough : ltb (length tbs) n ≡ false = ground arith in
          rw
            (
              enough,
              e,
              viable_rooms-all suits home (λ room. fits room tbs) rooms v h (λ room. all room tbs e)
                  hv hh,
            )
            (viable_days-all suits home fits n rooms days (min (v + s) u32_max)
                (min (h + t) u32_max) all (omega arith) (omega arith)
              ∙ pair_path (more_days v (days_of n days) s) (more_days h (days_of n days) t))
      | inr e ↦
          let short : ltb (length tbs) n ≡ true = ground arith in
          rw (short, e) (viable_days-all suits home fits n rooms days v h all hv hh)
    ]

mul_cut :
    (d s : ℕ) → d ≤ u32_max → sat_mul (as_u32 d) (min (0 + s) u32_max) ≡ min (0 + d * s) u32_max
mul_cut zero s h = omega arith
mul_cut (suc d) s h = elim (Bool-cases (leb s u32_max)) [
  | inl e ↦
      let small : min (0 + s) u32_max ≡ s = ground arith in
      let whole : as_u32 (suc d) ≡ suc d = omega arith in rw (small, whole) (omega arith)
  | inr e ↦
      let large : min (0 + s) u32_max ≡ u32_max = ground arith in
      let whole : as_u32 (suc d) ≡ suc d = omega arith in
      let above : u32_max ≤ s = ground arith in rw (large, whole) (omega arith)
]

fast :
    (d s t : ℕ) (counts : ℕ × ℕ)
    → d ≤ u32_max
    → counts ≡ cut (0 + s, 0 + t)
    → ◌≡◌ {A = ℕ × ℕ}
        (cut (0 + d * s, 0 + d * t))
        (sat_mul (as_u32 d) counts.0, sat_mul (as_u32 d) counts.1)
fast d s t counts h e = rw e (pair_path (sym (mul_cut d s h)) (sym (mul_cut d t h)))

length-filter : (p : Day → Bool) (days : List Day) → length (filter p days) ≤ length days
length-filter p [] = omega arith
length-filter p (d ∷ days) = ground (arith, length-filter p days)

nothing_blocked :
    (problem : Problem) (teacher : Option ℕ) (room : ℕ) (tb : TimeBlock)
    → problem.teacher_blocked_times ≡ []
    → problem.room_blocked_times ≡ []
    → is_free (new problem) teacher room tb ≡ true
unfolding is_free
nothing_blocked problem none room tb no_teacher no_room =
    rw (room_blocked-new problem room tb.id) (rw no_room refl)
nothing_blocked problem (some t) room tb no_teacher no_room =
    rw (room_blocked-new problem room tb.id, teacher_blocked-new problem t tb.id)
      (rw (no_room, no_teacher) refl)

-- With the index of a problem that has no blocked times, and with days that can be counted in 32 bits, the
-- fast path returns the counts of the general one.
pub same_room_eligibility-eq-no_blocks :
    (l : Lesson) (problem : Problem) (days : List Day) (pairs : List (ℕ × ℕ))
    → problem.teacher_blocked_times ≡ []
    → problem.room_blocked_times ≡ []
    → length days ≤ u32_max
    → same_room_eligibility l problem (new problem) days pairs
      ≡ same_room_eligibility_no_blocks l problem (new problem) days pairs
unfolding same_room_eligibility same_room_eligibility_no_blocks
same_room_eligibility-eq-no_blocks l problem days pairs no_teacher no_room few =
    let n = l.preferred_block_size in
    let suits : ℕ → Bool = λ room. room_suits_subject (new problem) room l.subject_id in
    let home : ℕ → Bool = home_rooms_contains (lesson_home_rooms pairs l.school_class_ids []) in
    let fits : ℕ → List TimeBlock → Bool =
      λ room tbs. run_fits (is_free (new problem) (assigned_teacher_id l) room) n tbs 0 in
    let s = suitable suits problem.rooms in
    let t = suitable (λ room. suits room && home room) problem.rooms in
    let all_fit : 0 < n
        → (room : ℕ) (tbs : List TimeBlock) → leb n (length tbs) ≡ true
        → fits room tbs ≡ true =
      λ some_block room tbs long.
        run_fits-all_free (is_free (new problem) (assigned_teacher_id l) room) n 0 tbs
          (λ tb. nothing_blocked problem (assigned_teacher_id l) room tb no_teacher no_room)
          some_block
        ∙ ground (arith, long) in
    elim (Bool-cases (n == 0)) [
      | inl e ↦ rw e refl
      | inr e ↦ rw e (
          viable_days-all suits home fits n problem.rooms days 0 0 (all_fit (ground arith))
            (omega arith) (omega arith)
          ∙ fast (days_of n days) s t (count_rooms suits home problem.rooms (0, 0))
              (omega (arith, length-filter (λ d. leb n (length d.1)) days))
              (count_rooms_lem suits home problem.rooms 0 0
                ∙ viable_rooms-all suits home (λ room. true) problem.rooms 0 0 (λ room. refl)
                    (omega arith) (omega arith)))
    ]
