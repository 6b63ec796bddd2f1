-- ===== src/Scores/Toggles.antt =====
-- ToggleLeaderboardVisibility of server/internal/services/scores.go, and what the leaderboards then
-- read.
use abhiyan.Db.Yields.{
  Yields-exec, Yields-require, Yields-read_one, Yields-parse_uuid, Yields-check, yielded, Idle,
}
use abhiyan.Sql.Orgs.{get_team_org_id}
use abhiyan.Sql.Tasks.{team_by_id}
use abhiyan.Sql.Leaderboards.{upsert_leaderboard_visibility, with_visibility}
use abhiyan.Scores.Leaderboards.{toggle_leaderboard_visibility, visibility}
use abhiyan.Db.{not_in_org, ok, Db, Env}
use abhiyan.Prelude.{
  ap, ◌∙◌, ℕ, String, Bool, true, false, Option, none, some, List, [], ◌∷◌, ◌++◌, ◌==◌, ◌≡◌, refl,
  any, update_where, if◌then◌else◌, Bool-cases, inl, inr, arith, subst,
}
use abhiyan.Schema.{Team, Store, TeamLeaderboardSetting}

abbrev set_row : Bool → TeamLeaderboardSetting → TeamLeaderboardSetting
set_row b v = record v { leaderboard_visible = b }

either_way : (x b : Bool) → (if x then b else b) ≡ b
either_way true b = refl
either_way false b = refl

visibility-updated :
    (t : ℕ) (b : Bool) (vs : List TeamLeaderboardSetting) (known : Bool)
    → visibility t (update_where (λ v. v.team_id == t) (set_row b) vs) known
      ≡ (if any (λ v. v.team_id == t) vs then b else known)
visibility-updated t b [] known = refl
visibility-updated t b (v ∷ vs) known = elim (Bool-cases (v.team_id == t)) [
  | inl same ↦ rw (same, same) (visibility-updated t b vs b ∙ either_way _ b)
  | inr other ↦ rw (other, other) (visibility-updated t b vs known)
]

visibility-other :
    (t i : ℕ) (b : Bool) (vs : List TeamLeaderboardSetting) (known : Bool)
    → (t == i) ≡ false
    → visibility i (update_where (λ v. v.team_id == t) (set_row b) vs) known ≡ visibility i vs known
visibility-other t i b [] known h = refl
visibility-other t i b (v ∷ vs) known h = elim (Bool-cases (v.team_id == t)) [
  | inl same ↦
      let e : (v.team_id == i) ≡ false = ground (arith, same, h) in
      rw (same, e) (visibility-other t i b vs known h)
  | inr other ↦ rw other (visibility-other t i b vs _ h)
]

visibility-append :
    (i : ℕ) (vs : List TeamLeaderboardSetting) (v : TeamLeaderboardSetting) (known : Bool)
    → visibility i (vs ++ v ∷ []) known
      ≡ (if v.team_id == i then v.leaderboard_visible else visibility i vs known)
visibility-append i [] v known = refl
visibility-append i (w ∷ vs) v known = visibility-append i vs v _

visibility-with_visibility :
    (t i : ℕ) (b : Bool) (vs : List TeamLeaderboardSetting)
    → visibility i (with_visibility t b vs) false ≡ (if t == i then b else visibility i vs false)
visibility-with_visibility t i b vs = elim (Bool-cases (any (λ v. v.team_id == t) vs)) [
  | inl there ↦ rw there (elim (Bool-cases (t == i)) [
    | inl same ↦
        let e : t ≡ i = ground (arith, same) in
        rw same (
          subst (λ j. visibility j (update_where (λ v. v.team_id == t) (set_row b) vs) false ≡ b) e
            (visibility-updated t b vs false ∙ rw there refl))
    | inr other ↦ rw other (visibility-other t i b vs false other)
  ])
  | inr fresh ↦ rw fresh (visibility-append i vs _ false)
]

abbrev pub Toggled : String → Bool → String → String → Env → Store → Store → Type 0
Toggled team visible admin caller env s0 s =
    (t : ℕ) × (o : ℕ) × (owner : Team) × (env.parse_uuid team ≡ some t)
    × (env.parse_uuid caller ≡ some o)
    × (team_by_id t s0 ≡ some owner)
    × (owner.org_id ≡ o)
    × (s ≡ record s0 { team_leaderboard_settings = s.team_leaderboard_settings })
    × ((i : ℕ)
        → visibility i s.team_leaderboard_settings false
          ≡ (if t == i then visible else visibility i s0.team_leaderboard_settings false))

owned :
    (found : Option Team) (owner : ℕ)
    → ◌≡◌ {A = Option ℕ}
        (elim found as (λ x. Option ℕ) [ none ↦ none | some team ↦ some team.org_id ])
        (some owner)
    → (team : Team) × (found ≡ some team) × (team.org_id ≡ owner)
owned none owner h = absurd cc
owned (some team) owner h = (team, refl, cc)

toggled :
    (env : Env) (s0 s : Store) (team : String) (visible : Bool) (admin caller : String)
    (t o owner : ℕ)
    → env.parse_uuid team ≡ some t
    → env.parse_uuid caller ≡ some o
    → (row : Team) × (team_by_id t s0 ≡ some row) × (row.org_id ≡ owner)
    → owner ≡ o
    → s ≡ s0
    → Toggled team visible admin caller env s0 (record s {
      team_leaderboard_settings = with_visibility t visible s.team_leaderboard_settings;
    })
toggled env s0 s team visible admin caller t o owner pt po (row, found, its) same at_start = (
  t,
  o,
  row,
  pt,
  po,
  found,
  its ∙ same,
  ap {A = Store} {B = Store}
      (λ z. record z {
        team_leaderboard_settings = with_visibility t visible s.team_leaderboard_settings;
      })
      at_start,
  λ i.
      visibility-with_visibility t i visible s.team_leaderboard_settings
      ∙ ap (λ z. if t == i then visible else visibility i z.team_leaderboard_settings false)
          at_start,
)

-- Setting the visibility of a leaderboard succeeds only for a team of the caller's organization. From
-- then on the team's visibility reads as it was set, that of every other team as before, and
-- nothing else has changed.
pub toggle_leaderboard_visibility-Toggled :
    (team : String) (visible : Bool) (admin caller : String) (env : Env) (db : Db) {x : Unit {0}}
    → Idle db
    → (toggle_leaderboard_visibility team visible admin caller env db).0 ≡ ok x
    → Toggled team visible admin caller env db.store
        (toggle_leaderboard_visibility team visible admin caller env db).1.store
unfolding toggle_leaderboard_visibility get_team_org_id upsert_leaderboard_visibility
toggle_leaderboard_visibility-Toggled team visible admin caller env db idle h =
    yielded {Q = λ _ s. Toggled team visible admin caller env db.store s}
      (toggle_leaderboard_visibility team visible admin caller) db
      (Yields-check _ _ (Yields-parse_uuid team) (λ t pt.
        Yields-check _ _ (Yields-parse_uuid caller) (λ o po.
          Yields-check _ _ (Yields-parse_uuid admin) (λ by pb.
            Yields-check _ _ (Yields-read_one _) (λ owner e.
              Yields-check _ _ (Yields-require (owner == o) not_in_org) (λ y same.
                Yields-exec _ (λ n s at_start.
                  toggled env db.store s team visible admin caller t o owner pt po
                    (owned (team_by_id t db.store) owner e) (ground (arith, same)) at_start)))))))
      idle refl h
