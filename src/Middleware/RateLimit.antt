-- ===== src/Middleware/RateLimit.antt =====
-- RateLimit of server/internal/middleware/ratelimit.go over RateLimitHit of
-- server/internal/db/sqlc/app_kv.sql.go: a fixed window for each key.
use abhiyan.Prelude.{
  ℕ, ◌+◌, ◌^◌, String, Bool, true, not, Option, none, some, List, [], ◌∷◌, ◌++◌, ltb, leb, find,
  update_where, str_eq, if◌then◌else◌,
}
use abhiyan.Schema.{AppKv, Store}
use abhiyan.Db.{M, pure, ◌>>=◌, attempt, write_checked}

abbrev pub has_key : String → AppKv → Bool
has_key key r = str_eq r.key key

-- The row after a hit: a window that is over starts again.
abbrev pub hit_row : ℕ → ℕ → AppKv → AppKv
hit_row at window r =
    if leb r.expires_at at
    then record r { count = 1; expires_at = at + window }
    else record r { count = r.count + 1 }

abbrev pub replace : String → AppKv → Store → Store
replace key r s = record s { app_kv = update_where (has_key key) (λ old. r) s.app_kv }

-- INSERT … ON CONFLICT DO UPDATE; a count that is no 32-bit integer is refused.
abbrev pub hit : String → ℕ → ℕ → Store → Option ((ℕ × ℕ) × Store)
hit key at window s = elim (find (has_key key) s.app_kv) [
  | none ↦ some (
    (1, at + window),
    record s {
      app_kv = s.app_kv ++ record { key = key; count = 1; expires_at = at + window } ∷ [];
    },
  )
  | some r ↦
      let r' = hit_row at window r in
      if ltb r'.count (2 ^ 31) then some ((r'.count, r'.expires_at), replace key r' s) else none
]

unfoldable pub rate_limit_hit : String → ℕ → M (ℕ × ℕ)
rate_limit_hit key window = write_checked (λ env t. hit key (env.clock t) window)

-- An error lets the request through.
abbrev pub admits : ℕ → Option (ℕ × ℕ) → Bool
admits limit none = true
admits limit (some (count, expires_at)) = not (ltb limit count)

-- Whether the request goes on, or is answered with 429
unfoldable pub rate_limit : ℕ → ℕ → String → M Bool
rate_limit limit window key = do row ← attempt (rate_limit_hit key window); pure (admits limit row)

-- One request after the other, under one key
unfoldable pub requests : ℕ → ℕ → String → ℕ → M (List Bool)
requests limit window key ℕ.zero = pure []
requests limit window key (ℕ.suc n) = do
  admitted ← rate_limit limit window key
  rest ← requests limit window key n
  pure (admitted ∷ rest)
