-- ===== src/Scores/Ranks.antt =====
-- assignRanks of server/internal/services/scores.go, over LeaderboardEntry of
-- server/internal/schemas/scores.go.
use abhiyan.Prelude.{
  ℕ, ◌+◌, ◌≤◌, ◌<◌, String, Bool, ◌≡◌, refl, ap, ◌∙◌, List, [], ◌∷◌, ◌++◌, map, ltb, ltb→lt, count,
  count-append, length, length-append, All, if◌then◌else◌, Bool-cases, inl, inr, arith, sym,
}
use mathlib.Core.List.{append_assoc}
use mathlib.Core.Path.{ap₂}

pub record LeaderboardEntry : Type 0 where
  pub rank : ℕ
  pub user_id : ℕ
  pub full_name : String
  pub email : String
  pub total_points : ℕ
  pub on_time_count : ℕ
  pub completed_count : ℕ
  pub is_current_user : Bool

abbrev pub with_rank : ℕ → LeaderboardEntry → LeaderboardEntry
with_rank n e = record e { rank = n }

-- The loop from index `i` on, after an entry of `previous` points.
assign_from : ℕ → ℕ → ℕ → List LeaderboardEntry → List LeaderboardEntry
assign_from i rank previous [] = []
assign_from i rank previous (e ∷ es) =
    let rank' = if ltb e.total_points previous then i + 1 else rank in
    with_rank rank' e ∷ assign_from (i + 1) rank' e.total_points es

unfoldable pub assign_ranks : List LeaderboardEntry → List LeaderboardEntry
unfolding assign_from
assign_ranks [] = []
assign_ranks (e ∷ es) = with_rank 1 e ∷ assign_from 1 1 e.total_points es

-- Sorted by points, highest first, and none above `bound`.
abbrev pub DescendingFrom : ℕ → List LeaderboardEntry → Type 0
DescendingFrom bound [] = Unit
DescendingFrom bound (e ∷ es) = (e.total_points ≤ bound) × DescendingFrom e.total_points es

abbrev pub IsDescending : List LeaderboardEntry → Type 0
IsDescending [] = Unit
IsDescending (e ∷ es) = DescendingFrom e.total_points es

-- How many entries have strictly more points.
abbrev pub ahead : ℕ → List LeaderboardEntry → ℕ
ahead points = count (λ x. ltb points x.total_points)

-- The place that competition ranking gives: entries with equal points share it.
abbrev pub competition_rank : List LeaderboardEntry → LeaderboardEntry → LeaderboardEntry
competition_rank all e = with_rank (1 + ahead e.total_points all) e

abbrev AtLeast : ℕ → List LeaderboardEntry → Type 0
AtLeast b = All (λ x. b ≤ x.total_points)

ahead-descending :
    (p b : ℕ) (es : List LeaderboardEntry) → DescendingFrom b es → b ≤ p → ahead p es ≡ 0
ahead-descending p b [] d h = refl
ahead-descending p b (e ∷ es) d h =
    ground (arith, ahead-descending p e.total_points es d.1 (omega arith))

ahead-all :
    (p b : ℕ) (pre : List LeaderboardEntry) → AtLeast b pre → p < b → ahead p pre ≡ length pre
ahead-all p b [] g h = refl
ahead-all p b (x ∷ xs) g h = ground (arith, ahead-all p b xs g.1 h)

AtLeast-append :
    (b : ℕ) (pre : List LeaderboardEntry) (e : LeaderboardEntry)
    → AtLeast b pre
    → e.total_points ≤ b
    → AtLeast e.total_points (pre ++ e ∷ [])
AtLeast-append b [] e g h = (omega arith, tt)
AtLeast-append b (x ∷ xs) e g h = (omega arith, AtLeast-append b xs e g.1 h)

next_rank :
    (rank previous : ℕ) (pre : List LeaderboardEntry) (e : LeaderboardEntry)
    → AtLeast previous pre
    → rank ≡ 1 + ahead previous pre
    → e.total_points ≤ previous
    → (if ltb e.total_points previous then length pre + 1 else rank) ≡ 1 + ahead e.total_points pre
next_rank rank previous pre e g r h = elim (Bool-cases (ltb e.total_points previous)) [
  | inl less ↦ rw less (omega (arith, ahead-all e.total_points previous pre g (ltb→lt _ _ less)))
  | inr same ↦
      let eq : previous ≡ e.total_points = ground arith in
      rw same (r ∙ ap (λ p. 1 + ahead p pre) eq)
]

assign_from-rank :
    (rank previous : ℕ) (pre es : List LeaderboardEntry)
    → AtLeast previous pre
    → rank ≡ 1 + ahead previous pre
    → DescendingFrom previous es
    → assign_from (length pre) rank previous es ≡ map (competition_rank (pre ++ es)) es
unfolding assign_from
assign_from-rank rank previous pre [] g r d = refl
assign_from-rank rank previous pre (e ∷ es) g r d =
    let points = e.total_points in
    let rank' : ℕ = if ltb points previous then length pre + 1 else rank in
    let place = next_rank rank previous pre e g r d.0 in
    let none_after = ahead-descending points points (e ∷ es) (omega arith, d.1) (omega arith) in
    let total = count-append (λ x. ltb points x.total_points) pre (e ∷ es) in
    let last : ahead points (e ∷ []) ≡ 0 = ground arith in
    let grown = count-append (λ x. ltb points x.total_points) pre (e ∷ []) in
    let rest =
      assign_from-rank rank' points (pre ++ e ∷ []) es (AtLeast-append previous pre e g d.0)
        (omega (arith, place, last, grown)) d.1 in
    let longer = length-append pre (e ∷ []) in
    ap₂ (λ n tail. with_rank n e ∷ tail) (omega (arith, place, total, none_after))
      (ap (λ i. assign_from i rank' points es) (sym longer)
        ∙ rest
        ∙ ap (λ all. map (competition_rank all) es) (append_assoc pre (e ∷ []) es))

-- Over entries sorted by points, as the leaderboard queries return them, every entry gets one more
-- than the number of entries with strictly more points, so that equal points share a rank, and
-- nothing else of an entry changes.
pub assign_ranks-competition :
    (es : List LeaderboardEntry) → IsDescending es → assign_ranks es ≡ map (competition_rank es) es
unfolding assign_ranks
assign_ranks-competition [] d = refl
assign_ranks-competition (e ∷ es) d =
    let last : ahead e.total_points (e ∷ []) ≡ 0 = ground arith in
    let top =
      ahead-descending e.total_points e.total_points (e ∷ es) (omega arith, d) (omega arith) in
    ap₂ (λ n tail. with_rank n e ∷ tail) (omega (arith, top))
      (assign_from-rank 1 e.total_points (e ∷ []) es (omega arith, tt) (omega (arith, last)) d)
