-- ===== src/Proxy/Cache.antt =====
-- The cache of translations of proxy/internal/cache/cache.go over a bounded LRU map, which is not part of the
-- repository: its documented behaviour is an interface.
use mysql_redshift_agent.Prelude.{ℕ, ◌+◌, ◌≡◌, ◌≢◌, ◌⊎◌, Option, none, some}
use mysql_redshift_agent.Text.{Text}
use mysql_redshift_agent.Value.{ℤ}

pub record Lru : Type 1 where
  pub Store : Type 0
  -- `New`; `none` is its error
  pub new : ℤ → Option Store
  -- a look-up, which also makes the key the latest one
  pub get : Text → Store → Option Text × Store
  pub add : Text → Text → Store → Store
  pub get_new : (n : ℤ) (k : Text) (s : Store) → new n ≡ some s → (get k s).0 ≡ none
  pub get_added : (k v : Text) (s : Store) → (get k (add k v s)).0 ≡ some v
  -- A look-up changes no entry.
  pub get_got : (k j : Text) (s : Store) → (get k (get j s).1).0 ≡ (get k s).0
  -- Adding a key drops another one or leaves it as it is.
  pub get_other :
      (k j v : Text) (s : Store)
      → k ≢ j
      → ((get k (add j v s)).0 ≡ (get k s).0) ⊎ ((get k (add j v s)).0 ≡ none)

-- `Cache` with the counters of `stats`
pub record Cache (l : Lru) : Type 0 where
  pub inner : l.Store
  pub hit : ℕ
  pub miss : ℕ

module _ (l : Lru) where
  -- `Get`
  unfoldable pub cache_get : Text → Cache l → Option Text × Cache l
  cache_get k c = let (found, inner) = l.get k c.inner in (found, record c { inner = inner })

  -- `Set`
  unfoldable pub cache_set : Text → Text → Cache l → Cache l
  cache_set k v c = record c { inner = l.add k v c.inner }

  -- `IncHit` and `IncMiss`
  unfoldable pub inc_hit : Cache l → Cache l
  inc_hit c = record c { hit = c.hit + 1 }

  unfoldable pub inc_miss : Cache l → Cache l
  inc_miss c = record c { miss = c.miss + 1 }
