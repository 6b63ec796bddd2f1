-- ===== src/Scores/Visible.antt =====
-- An employee's leaderboard: of the user's own teams, and only of those whose leaderboard is visible.
use abhiyan.Attendance.Reports.{one_team}
use abhiyan.Db.Rules.{quiet_rules, Quiet-parse_uuid}
use abhiyan.Scores.Boards.{ranking, shown_rows, entries, IsRanking}
use abhiyan.Db.Yields.{
  yielded, Yields-read, Yields-parse_uuid, Idle, Yields-attempt_known, Yields-check, Yields-attempt,
  Yields-mono, Yields-bind, Yields-pure, Yields,
}
use abhiyan.Scores.Ranks.{LeaderboardEntry}
use abhiyan.Sql.Attendance.{teams_of_user}
use abhiyan.Scores.Leaderboards.{
  visible_leaderboard, get_employee_leaderboard, leaderboard_or_empty, named_among, visibility,
  narrow,
}
use abhiyan.Sql.Leaderboards.{get_employee_teams, get_leaderboard_visibility_bulk, is_among}
use abhiyan.Db.{ok, Db, value_or, Env}
use abhiyan.Prelude.{
  subst, ap, ◌∙◌, sym, ◌==◌, arith, Bool-cases, ℕ, String, Bool, true, false, Option, none, some,
  List, [], ◌∷◌, ◌≡◌, ◌⊎◌, inl, inr, refl, All, filter, map,
}
use abhiyan.Schema.{TeamLeaderboardSetting, Store}

-- A team of the user in that organization whose leaderboard is set to be visible
abbrev pub Shown : ℕ → ℕ → Store → ℕ → Type 0
Shown u o s i =
    (is_among (map (λ t. t.id) (teams_of_user o u s)) i ≡ true)
    × (visibility i s.team_leaderboard_settings false ≡ true)

abbrev pub ShownBoard :
    String → String → String → Env → Store → List LeaderboardEntry → Store → Type 0
ShownBoard user team caller env s0 es s =
    (u : ℕ) × (o : ℕ) × (teams : List ℕ) × (env.parse_uuid user ≡ some u)
    × (env.parse_uuid caller ≡ some o)
    × (s ≡ s0)
    × All (Shown u o s0) teams
    × (es ≡ [] ⊎ IsRanking (entries env.uuid_string user (shown_rows teams s0)) es)

other_id :
    (ids : List ℕ) (a i : ℕ) → is_among ids a ≡ false → is_among ids i ≡ true → (a == i) ≡ false
other_id ids a i out among = elim (Bool-cases (a == i)) [
  | inl same ↦
      let e : a ≡ i = ground (arith, same) in
      let both : is_among ids a ≡ true = subst (λ j. is_among ids j ≡ true) (sym e) among in
      absurd cc
  | inr differs ↦ differs
]

-- The settings that are read decide on a team as the whole table does.
visibility-settings_of :
    (ids : List ℕ) (i : ℕ) (vs : List TeamLeaderboardSetting) (known : Bool)
    → is_among ids i ≡ true
    → visibility i (filter (λ v. is_among ids v.team_id) vs) known ≡ visibility i vs known
visibility-settings_of ids i [] known among = refl
visibility-settings_of ids i (v ∷ vs) known among = elim (Bool-cases (is_among ids v.team_id)) [
  | inl here ↦ rw here (visibility-settings_of ids i vs _ among)
  | inr out ↦
      rw (out, other_id ids v.team_id i out among) (visibility-settings_of ids i vs known among)
]

-- Of the ids that are among the teams, those that pass
All-filter :
    (P : ℕ → Type 0) (p : ℕ → Bool) (ids : List ℕ)
    → All (λ i. p i ≡ true → P i) ids
    → All P (filter p ids)
All-filter P p [] h = tt
All-filter P p (i ∷ ids) (h, hs) = elim (Bool-cases (p i)) [
  | inl passed ↦ rw passed (h passed, All-filter P p ids hs)
  | inr left ↦ rw left (All-filter P p ids hs)
]

All-refine :
    (P Q R : ℕ → Type 0) (ids : List ℕ)
    → ((i : ℕ) → P i → Q i → R i)
    → All P ids
    → All Q ids
    → All R ids
All-refine P Q R [] f ps qs = tt
All-refine P Q R (i ∷ ids) f (p, ps) (q, qs) = (f i p q, All-refine P Q R ids f ps qs)

among_more : (x i : ℕ) (ids : List ℕ) → is_among ids i ≡ true → is_among (x ∷ ids) i ≡ true
among_more x i ids h = ground (arith, h)

all_among : (ids : List ℕ) → All (λ i. is_among ids i ≡ true) ids
all_among [] = tt
all_among (x ∷ ids) = (
  ground arith,
  All-refine (λ i. is_among ids i ≡ true) (λ i. is_among ids i ≡ true) _ ids
      (λ i p q. among_more x i ids p) (all_among ids) (all_among ids),
)

named :
    (wanted : Option ℕ) (ids : List ℕ) → All (λ i. is_among ids i ≡ true) (named_among wanted ids)
named none ids = tt
named (some i) ids = elim (Bool-cases (is_among ids i)) [
  | inl among ↦ rw among (among, tt)
  | inr out ↦ rw out tt
]

module _ {env : Env} {s0 : Store} where
  chosen :
      (b : Bool) (team : String) (ids : List ℕ)
      → Yields env
          (λ s. s ≡ s0)
          (narrow b team ids)
          (λ ts s. (s ≡ s0) × All (λ i. is_among ids i ≡ true) ts)
  unfolding narrow
  chosen false team ids = Yields-pure ids (λ s h. (h, all_among ids))
  chosen true team ids =
      Yields-bind _ _ (Yields-attempt _ (Quiet-parse_uuid team) (Yields-parse_uuid team))
        (λ wanted. Yields-pure _ (λ s h. (h, named wanted ids)))

abbrev OfTeams : List ℕ → String → Env → Store → List LeaderboardEntry → Store → Type 0
OfTeams ids user env s0 es s =
    (s ≡ s0)
    × ((teams : List ℕ) × All
          (λ i. (is_among ids i ≡ true) × (visibility i s0.team_leaderboard_settings false ≡ true))
          teams
        × (es ≡ [] ⊎ IsRanking (entries env.uuid_string user (shown_rows teams s0)) es))

-- A team that passes by the settings that were read, if they were, is visible.
passed :
    (ids : List ℕ) (i : ℕ) (vs : List TeamLeaderboardSetting)
    (settings : Option (List TeamLeaderboardSetting))
    → ((a : List TeamLeaderboardSetting)
        → settings ≡ some a
        → (n : ℕ) × (a ≡ filter (λ v. is_among ids v.team_id) vs))
    → is_among ids i ≡ true
    → visibility i (value_or [] settings) false ≡ true
    → visibility i vs false ≡ true
passed ids i vs none known among h = absurd cc
passed ids i vs (some a) known among h =
    sym (visibility-settings_of ids i vs false among)
    ∙ ap (λ z. visibility i z false) (sym (known a refl).1)
    ∙ h

module _ (env : Env) (s0 : Store) (ids : List ℕ) (user : String) where
  shown_or_empty :
      (teams : List ℕ)
      → All
          (λ i. (is_among ids i ≡ true) × (visibility i s0.team_leaderboard_settings false ≡ true))
          teams
      → Yields env (λ s. s ≡ s0) (leaderboard_or_empty teams user) (OfTeams ids user env s0)
  unfolding leaderboard_or_empty
  shown_or_empty [] ok_teams = Yields-pure [] (λ s h. (h, ([], tt, inl refl)))
  shown_or_empty (t ∷ ts) ok_teams =
      Yields-mono _ (λ es s h. (h.0, (t ∷ ts, ok_teams, inr h.1))) (ranking (t ∷ ts) user)

  visible :
      (ts : List ℕ)
      → All (λ i. is_among ids i ≡ true) ts
      → Yields env (λ s. s ≡ s0) (visible_leaderboard ts user) (OfTeams ids user env s0)
  unfolding visible_leaderboard get_leaderboard_visibility_bulk
  visible [] own = Yields-pure [] (λ s h. (h, ([], tt, inl refl)))
  visible (t ∷ ts) own =
      let seen = s0.team_leaderboard_settings in
      Yields-check _ _ (Yields-attempt_known _ (search quiet_rules depth 8) (Yields-read _))
        (λ settings known. shown_or_empty _ (
          All-filter _ (λ i. visibility i (value_or [] settings) false) (t ∷ ts)
            (All-refine (λ i. is_among ids i ≡ true) (λ i. is_among (t ∷ ts) i ≡ true) _ (t ∷ ts)
              (λ i mine among h. (mine, passed (t ∷ ts) i seen settings known among h)) own
              (all_among (t ∷ ts)))))

-- An employee's leaderboard is empty, or the ranking of teams that the user is in, in the caller's
-- organization, and whose leaderboard is set to be visible, whatever team the request names.
pub get_employee_leaderboard-ShownBoard :
    (user team caller : String) (env : Env) (db : Db) {es : List LeaderboardEntry}
    → Idle db
    → (get_employee_leaderboard user team caller env db).0 ≡ ok es
    → ShownBoard user team caller env db.store es
        (get_employee_leaderboard user team caller env db).1.store
unfolding get_employee_leaderboard get_employee_teams
get_employee_leaderboard-ShownBoard user team caller env db idle h =
    yielded {Q = λ es s. ShownBoard user team caller env db.store es s}
      (get_employee_leaderboard user team caller) db
      (Yields-check _ _ (Yields-parse_uuid user) (λ u pu.
        Yields-check _ _ (Yields-parse_uuid caller) (λ o po.
          Yields-check _ _ (Yields-read _) (λ ids e.
            Yields-check _ _ (chosen (one_team team) team ids) (λ ts own.
              Yields-mono _
                (λ es s q.
                  let (teams, shown, board) = q.1 in
                  (
                    u,
                    o,
                    teams,
                    pu,
                    po,
                    q.0,
                    subst
                        (λ is.
                          All
                            (λ i.
                              (is_among is i ≡ true)
                              × (visibility i db.store.team_leaderboard_settings false ≡ true))
                            teams)
                        e.1 shown,
                    board,
                  ))
                (visible env db.store ids user ts own))))))
      idle refl h
