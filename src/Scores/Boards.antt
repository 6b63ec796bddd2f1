-- ===== src/Scores/Boards.antt =====
-- What the leaderboards show: a ranking of the members by their live points.
use abhiyan.Db.Yields.{
  Yields-pure, Yields-select, Yields-attempt, Yields-bind, Yields-uuid_printer, Yields-read,
  yielded, Yields-check, Yields, Idle,
}
use abhiyan.Db.{ok, Db, Env}
use abhiyan.Prelude.{
  ℕ, ◌+◌, ◌≤◌, String, Bool, List, [], ◌∷◌, ◌≡◌, refl, sym, ap, ◌∙◌, subst, count, ltb, leb, map,
  Bool-cases, inl, inr, arith,
}
use abhiyan.Schema.{Store}
use abhiyan.Db.Rules.{quiet_rules}
use abhiyan.Sql.Leaderboards.{
  get_aggregated_leaderboard, get_leaderboard_visibility_bulk, get_team_leaderboard, team_rows,
  aggregated_rows, LeaderRow, insert_row, sort_rows,
}
use abhiyan.Scores.Ranks.{
  assign_ranks, LeaderboardEntry, with_rank, competition_rank, ahead, IsDescending, DescendingFrom,
  assign_ranks-competition,
}
use abhiyan.Scores.Leaderboards.{read_leaders, get_leaderboard, leaderboard_entry}

count-map :
    {A B : Type 0} (p : B → Bool) (f : A → B) (xs : List A)
    → count p (map f xs) ≡ count (λ x. p (f x)) xs
count-map p f [] = refl
count-map p f (x ∷ xs) = ground (arith, count-map p f xs)

count-insert_row :
    (p : LeaderRow → Bool) (r : LeaderRow) (rs : List LeaderRow)
    → count p (insert_row r rs) ≡ count p (r ∷ rs)
count-insert_row p r [] = refl
count-insert_row p r (x ∷ xs) = ground (arith, count-insert_row p r xs)

count-sort_rows : (p : LeaderRow → Bool) (rs : List LeaderRow) → count p (sort_rows rs) ≡ count p rs
count-sort_rows p [] = refl
count-sort_rows p (r ∷ rs) =
    ground (arith, count-insert_row p r (sort_rows rs), count-sort_rows p rs)

module _ (print : ℕ → String) (current : String) where
  abbrev pub entries : List LeaderRow → List LeaderboardEntry
  entries = map (leaderboard_entry print current)

  inserted_below :
      (b : ℕ) (r : LeaderRow) (xs : List LeaderRow)
      → r.total_points ≤ b
      → DescendingFrom b (entries xs)
      → DescendingFrom b (entries (insert_row r xs))
  unfolding leaderboard_entry
  inserted_below b r [] h d = (h, tt)
  inserted_below b r (x ∷ xs) h d = elim (Bool-cases (leb x.total_points r.total_points)) [
    | inl first ↦ rw first (h, (ground arith, d.1))
    | inr after ↦ rw after (d.0, inserted_below x.total_points r xs (ground arith) d.1)
  ]

  inserted :
      (r : LeaderRow) (xs : List LeaderRow)
      → IsDescending (entries xs)
      → IsDescending (entries (insert_row r xs))
  unfolding leaderboard_entry
  inserted r [] d = tt
  inserted r (x ∷ xs) d = elim (Bool-cases (leb x.total_points r.total_points)) [
    | inl first ↦ rw first (ground arith, d)
    | inr after ↦ rw after (inserted_below x.total_points r xs (ground arith) d)
  ]

  sort_rows-IsDescending : (rs : List LeaderRow) → IsDescending (entries (sort_rows rs))
  sort_rows-IsDescending [] = tt
  sort_rows-IsDescending (r ∷ rs) = inserted r (sort_rows rs) (sort_rows-IsDescending rs)

ranked_below :
    (all es : List LeaderboardEntry) (b : ℕ)
    → DescendingFrom b es
    → DescendingFrom b (map (competition_rank all) es)
ranked_below all [] b d = tt
ranked_below all (e ∷ es) b d = (d.0, ranked_below all es e.total_points d.1)

ranked :
    (all es : List LeaderboardEntry)
    → IsDescending es
    → IsDescending (map (competition_rank all) es)
ranked all [] d = tt
ranked all (e ∷ es) d = ranked_below all es e.total_points d

-- The rows that a leaderboard of those teams is of, in no order: the members of the one team, or each
-- member of several once
abbrev pub shown_rows : List ℕ → Store → List LeaderRow
shown_rows [] s = aggregated_rows [] s
shown_rows (t ∷ []) s = team_rows t s
shown_rows (t ∷ u ∷ ts) s = aggregated_rows (t ∷ u ∷ ts) s

-- The entries are those of the table, each with the place that competition ranking gives it in the
-- whole table, sorted by points.
abbrev pub IsRanking : List LeaderboardEntry → List LeaderboardEntry → Type 0
IsRanking table es =
    IsDescending es
    × ((p : LeaderboardEntry → Bool) → count p es ≡ count p (map (competition_rank table) table))

module _ (print : ℕ → String) (current : String) (rows : List LeaderRow) where
  ahead-sort_rows :
      (points : ℕ)
      → ahead points (entries print current (sort_rows rows))
        ≡ ahead points (entries print current rows)
  ahead-sort_rows points =
      let p : LeaderboardEntry → Bool = λ x. ltb points x.total_points in
      let f = leaderboard_entry print current in
      count-map p f (sort_rows rows)
      ∙ count-sort_rows (λ r. p (f r)) rows
      ∙ sym (count-map p f rows)

  assign_ranks-IsRanking :
      IsRanking (entries print current rows) (assign_ranks (entries print current (sort_rows rows)))
  assign_ranks-IsRanking =
      let f = leaderboard_entry print current in
      let sorted = entries print current (sort_rows rows) in
      let table = entries print current rows in
      let down = sort_rows-IsDescending print current rows in
      let places : assign_ranks sorted ≡ map (competition_rank table) sorted =
        assign_ranks-competition sorted down
        ∙ ap {A = LeaderboardEntry → ℕ} (λ n. map (λ e. with_rank (1 + n e) e) sorted)
            (λ i e. ahead-sort_rows e.total_points i) in
      (
        subst IsDescending (sym places) (ranked table sorted down),
        λ p.
            ap (count p) places
            ∙ count-map p (competition_rank table) sorted
            ∙ count-map (λ e. p (competition_rank table e)) f (sort_rows rows)
            ∙ count-sort_rows (λ r. p (competition_rank table (f r))) rows
            ∙ sym (count-map (λ e. p (competition_rank table e)) f rows)
            ∙ sym (count-map p (competition_rank table) table),
      )

module _ {env : Env} {s0 : Store} where
  leaders :
      (teams : List ℕ)
      → Yields env
          (λ s. s ≡ s0)
          (read_leaders teams)
          (λ rows s. (s ≡ s0) × ((n : ℕ) × (rows ≡ sort_rows (shown_rows teams s0))))
  unfolding read_leaders get_team_leaderboard get_aggregated_leaderboard
  leaders [] = Yields-read _
  leaders (t ∷ []) = Yields-read _
  leaders (t ∷ u ∷ ts) = Yields-read _

  pub ranking :
      (teams : List ℕ) (current : String)
      → Yields env
          (λ s. s ≡ s0)
          (get_leaderboard teams current)
          (λ es s. (s ≡ s0) × IsRanking (entries env.uuid_string current (shown_rows teams s0)) es)
  unfolding get_leaderboard get_leaderboard_visibility_bulk
  ranking teams current = Yields-check _ _ Yields-uuid_printer (λ print p.
      Yields-check _ _ (leaders teams) (λ rows e.
        Yields-bind _ _ (Yields-attempt _ (search quiet_rules depth 8) (Yields-select _))
          (λ settings. Yields-pure _ (λ s same. (
            same,
            subst
                (λ z.
                  IsRanking (entries env.uuid_string current (shown_rows teams s0))
                    (assign_ranks (map (leaderboard_entry z current) rows)))
                (sym p)
                (subst
                  (λ rs.
                    IsRanking (entries env.uuid_string current (shown_rows teams s0))
                      (assign_ranks (map (leaderboard_entry env.uuid_string current) rs)))
                  (sym e.1) (assign_ranks-IsRanking env.uuid_string current (shown_rows teams s0))),
          )))))

-- A leaderboard has one entry for each row of its teams, and each has one more than the number of
-- rows with strictly more points as its rank, so that equal points share a rank. The entries are
-- sorted by points, highest first, and reading them leaves the tables as they were.
pub get_leaderboard-IsRanking :
    (teams : List ℕ) (current : String) (env : Env) (db : Db) {es : List LeaderboardEntry}
    → Idle db
    → (get_leaderboard teams current env db).0 ≡ ok es
    → ((get_leaderboard teams current env db).1.store ≡ db.store)
      × IsRanking (entries env.uuid_string current (shown_rows teams db.store)) es
get_leaderboard-IsRanking teams current env db idle h =
    yielded
      {Q = λ es s.
        (s ≡ db.store) × IsRanking (entries env.uuid_string current (shown_rows teams db.store)) es}
      (get_leaderboard teams current) db (ranking teams current) idle refl h
