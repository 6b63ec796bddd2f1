-- ===== src/Middleware/Window.antt =====
-- What the fixed window of Middleware/RateLimit.antt lets through.
use abhiyan.Prelude.{
  ℕ, zero, suc, ◌≤◌, ◌<◌, String, Bool, true, not, none, some, List, [], ◌∷◌, ◌≡◌, ◌⊎◌, ltb, leb,
  find,
}
use abhiyan.Schema.{AppKv, Store}
use abhiyan.Db.{Env, Db, ok}
use abhiyan.Middleware.RateLimit.{has_key, hit, rate_limit}

-- The key's row, with `k` hits in a window until `e`
abbrev pub Counts : String → ℕ → ℕ → Store → Type 0
Counts key k e s =
    (r : AppKv) × (find (has_key key) s.app_kv ≡ some r)
    × (r.count ≡ k)
    × (r.expires_at ≡ e)
    × (has_key key r ≡ true)

-- The key has no row, or one whose window is over.
abbrev pub Fresh : String → ℕ → Store → Type 0
Fresh key at s =
    (find (has_key key) s.app_kv ≡ none)
    ⊎ ((r : AppKv) × (find (has_key key) s.app_kv ≡ some r)
        × (r.expires_at ≤ at)
        × (has_key key r ≡ true))

-- What the hit returns and leaves
abbrev Hit : String → ℕ → ℕ → ℕ → ℕ → Store → Type 0
Hit key at window k e s =
    (s' : Store) × (hit key at window s ≡ some ((k, e), s')) × Counts key k e s'

-- One request, from what its hit does
abbrev Admitted : Env → Db → ℕ → ℕ → String → ℕ → ℕ → Type 0
Admitted env db limit window key k e =
    (s' : Store) × Counts key k e s'
    × (rate_limit limit window key env db
        ≡ (ok (not (ltb limit k)), record db { store = s'; tick = suc db.tick }))

-- What a window that has let `k` hits in says to the next ones: yes up to the limit
abbrev pub verdicts : ℕ → ℕ → ℕ → List Bool
verdicts limit k zero = []
verdicts limit k (suc n) = leb (suc k) limit ∷ verdicts limit (suc k) n

-- The readings of the clock at the next `n` statements are before `e`.
abbrev pub Before : Env → ℕ → ℕ → ℕ → Type 0
Before env tick e zero = Unit
Before env tick e (suc n) = (env.clock tick < e) × Before env (suc tick) e n
