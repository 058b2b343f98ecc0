-- ===== src/Lahc/Run/Best.antt =====
-- What the loop returns: the best of the placements that it has seen.
use klassenzeit.Base.{
  ℕ, zero, suc, ◌<◌, ◌≤◌, ◌≡◌, refl, Bool, true, false, Option, none, some, List, [], ◌∷◌, arith,
  ltb, ◌==◌, if◌then◌else◌, length, All, All-map, ap, ◌∙◌, In, here, there, In-cons, ◌⊎◌, inl, inr,
  Bool-cases,
}
use klassenzeit.Types.{Placement}
use klassenzeit.Lahc.Run.{
  Config, Env, Moves, Search, is_better, is_last, record_move, iterate, move, loop, initial, search,
  run, u64_max,
}

-- The second pair of a placement count and a score is as good as the first: more placements, or as many
-- and a score that is not higher.
abbrev pub AsGood : ℕ → ℕ → ℕ → ℕ → Type 0
AsGood count score count' score' = (count < count') ⊎ ((count ≡ count') × (score' ≤ score))

AsGood-trans : (a b c d e f : ℕ) → AsGood a b c d → AsGood c d e f → AsGood a b e f
AsGood-trans a b c d e f h k = ground arith

module _ {S : Type 0} (moves : Moves S) where
  -- The placements and the state at the end of each iteration.
  unfoldable pub tails : ℕ → Config → Env → ℕ → ℕ → Search S → List (List Placement × S)
  unfolding iterate
  tails zero config env deadline iter s = []
  tails (suc left) config env deadline iter s =
      let next = iterate moves config env iter s in
      let rest = tails left config env deadline (suc iter) next in
      if ltb (env.elapsed iter) deadline
      then (next.placements, next.state) ∷ (if is_last moves config next then [] else rest)
      else []

  abbrev Good : List Placement × S → Search S → Type 0
  Good p s = AsGood (length p.0) (moves.canonical_score p.1) s.running_best_count s.running_best

  abbrev Grows : Search S → Search S → Type 0
  Grows s s' = AsGood s.running_best_count s.running_best s'.running_best_count s'.running_best

  -- The variables for the best are those of `p`.
  abbrev IsAt : List Placement × S → Search S → Type 0
  IsAt p s =
      (s.best_placements ≡ p.0)
      × (s.running_best ≡ moves.canonical_score p.1)
      × (s.running_best_count ≡ length p.0)

  iterate_lem :
      (config : Config) (env : Env) (iter : ℕ) (s : Search S) (p : List Placement × S)
      → IsAt p s
      → Grows s (iterate moves config env iter s)
        × Good
            ((iterate moves config env iter s).placements, (iterate moves config env iter s).state)
            (iterate moves config env iter s)
        × (IsAt p (iterate moves config env iter s)
            ⊎ IsAt
                (
                  (iterate moves config env iter s).placements,
                  (iterate moves config env iter s).state,
                )
                (iterate moves config env iter s))
  unfolding iterate record_move
  iterate_lem config env iter s p h =
      let now = move moves config s.lahc_list iter (s.placements, s.state) in
      elim (Bool-cases (is_better moves now s.running_best_count s.running_best)) [
        | inl e ↦ rw e (ground (arith, e), inr (refl, omega arith), inr (refl, refl, refl))
        | inr e ↦ rw e (inr (refl, omega arith), ground (arith, e), inl h)
      ]

  -- What holds of the end `r` of a loop from `s` whose iterations ended in `ts`.
  abbrev Done : List Placement × S → List (List Placement × S) → Search S → Search S → Type 0
  Done p ts s r =
      Grows s r × All (λ q. Good q r) ts × ((q : List Placement × S) × In q (p ∷ ts) × IsAt q r)

  skip :
      {p t q : List Placement × S} {ts : List (List Placement × S)}
      → In q (p ∷ ts)
      → In q (p ∷ t ∷ ts)
  skip i = elim (In-cons i) [ inl e ↦ rw e here | inr j ↦ there (there j) ]

  Done-cons :
      (p t : List Placement × S) (ts : List (List Placement × S)) (s n r : Search S)
      → Grows s n × Good t n × (IsAt p n ⊎ IsAt t n)
      → ((q : List Placement × S) → IsAt q n → Done q ts n r)
      → Done p (t ∷ ts) s r
  Done-cons p t ts s n r (grows, good, inl at_p) later =
      let (grows', goods, (q, i, at_q)) = later p at_p in
      (
        AsGood-trans _ _ n.running_best_count n.running_best _ _ grows grows',
        (AsGood-trans _ _ n.running_best_count n.running_best _ _ good grows', goods),
        (q, skip i, at_q),
      )
  Done-cons p t ts s n r (grows, good, inr at_t) later =
      let (grows', goods, (q, i, at_q)) = later t at_t in
      (
        AsGood-trans _ _ n.running_best_count n.running_best _ _ grows grows',
        (AsGood-trans _ _ n.running_best_count n.running_best _ _ good grows', goods),
        (q, there i, at_q),
      )

  -- The loop's test and its last break, on any results of the iteration and of the rest.
  choose :
      (on last : Bool) (p t : List Placement × S) (ts : List (List Placement × S))
      (s n r : Search S)
      → Done p [] s s
      → Done p (t ∷ []) s n
      → Done p (t ∷ ts) s r
      → Done p
          (if on then t ∷ (if last then [] else ts) else [])
          s
          (if on then (if last then n else r) else s)
  choose false last p t ts s n r over stop more = over
  choose true true p t ts s n r over stop more = stop
  choose true false p t ts s n r over stop more = more

  loop_lem :
      (left : ℕ) (config : Config) (env : Env) (deadline iter : ℕ) (s : Search S)
      (p : List Placement × S)
      → IsAt p s
      → Done p
          (tails left config env deadline iter s)
          s
          (loop moves left config env deadline iter s)
  unfolding loop tails
  loop_lem zero config env deadline iter s p h = (inr (refl, omega arith), tt, (p, here, h))
  loop_lem (suc left) config env deadline iter s p h =
      let n = iterate moves config env iter s in
      let t : List Placement × S = (n.placements, n.state) in
      let later = λ (q : List Placement × S) (k : IsAt q n).
        loop_lem left config env deadline (suc iter) n q k in
      choose (ltb (env.elapsed iter) deadline) (is_last moves config n) p t
        (tails left config env deadline (suc iter) n) s n
        (loop moves left config env deadline (suc iter) n)
        (inr (refl, omega arith), tt, (p, here, h))
        (Done-cons p t [] s n n (iterate_lem config env iter s p h)
          (λ q k. (inr (refl, omega arith), tt, (q, here, k))))
        (Done-cons p t (tails left config env deadline (suc iter) n) s n
          (loop moves left config env deadline (suc iter) n) (iterate_lem config env iter s p h)
          later)

  -- All that the search sees: the greedy placements, and the placements at the end of each iteration.
  abbrev pub seen : Config → Env → ℕ → List Placement → S → List (List Placement × S)
  seen config env deadline placements state =
      (placements, state)
      ∷ tails (elim config.max_iterations [ none ↦ u64_max | some n ↦ n ]) config env deadline 0
          (initial moves env placements state)

  with_deadline :
      (o : Option ℕ) (empty : Bool) (d : ℕ) (x y : List Placement × Bool)
      (f : ℕ → List Placement × Bool)
      → o ≡ some d
      → empty ≡ false
      → elim o [ none ↦ x | some d' ↦ if empty then y else f d' ] ≡ f d
  with_deadline none empty d x y f e e' = cc
  with_deadline (some d') true d x y f e e' = cc
  with_deadline (some d') false d x y f e e' = ap f (ground arith)

  run-search :
      (config : Config) (env : Env) (deadline : ℕ) (placements : List Placement) (state : S)
      → config.deadline ≡ some deadline
      → (length placements == 0) ≡ false
      → run moves config env placements state ≡ (
        (search moves config env deadline placements state).best_placements,
        (search moves config env deadline placements state).was_cancelled,
      )
  unfolding run
  run-search config env deadline placements state timed some_placed =
      with_deadline config.deadline (length placements == 0) deadline (placements, false)
        (placements, false)
        (λ d. (
          (search moves config env d placements state).best_placements,
          (search moves config env d placements state).was_cancelled,
        ))
        timed some_placed

  -- With a deadline and some placement to start from, the placements that `run` leaves are some that it
  -- has seen, and none that it has seen are better: the greedy placements and the placements at the end
  -- of every iteration have fewer placements, or as many and a score at least as high. This holds for
  -- every clock, every cancellation and all moves.
  pub run-is_best :
      (config : Config) (env : Env) (deadline : ℕ) (placements : List Placement) (state : S)
      → config.deadline ≡ some deadline
      → (length placements == 0) ≡ false
      → (p : List Placement × S) × In p (seen config env deadline placements state)
        × ((run moves config env placements state).0 ≡ p.0)
        × All
            (λ q.
              AsGood
                (length q.0)
                (moves.canonical_score q.1)
                (length p.0)
                (moves.canonical_score p.1))
            (seen config env deadline placements state)
  unfolding run search
  run-is_best config env deadline placements state timed some_placed =
      let s = initial moves env placements state in
      let left : ℕ = elim config.max_iterations [ none ↦ u64_max | some n ↦ n ] in
      let (grows, goods, (q, i, at_q)) =
        loop_lem left config env deadline 0 s (placements, state) (refl, refl, refl) in
      let at_end : AsGood (length placements) (moves.canonical_score state) (length q.0)
          (moves.canonical_score q.1) =
        rw (at_q.1, at_q.2) at grows in
      let goods' = All-map (λ x h. rw (at_q.1, at_q.2) at h) _ goods in
      (
        q,
        i,
        (ap (λ (z : List Placement × Bool). z.0)
              (run-search config env deadline placements state timed some_placed)
            ∙ at_q.0),
        (at_end, goods'),
      )
