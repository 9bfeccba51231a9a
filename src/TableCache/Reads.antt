-- ===== src/TableCache/Reads.antt =====
-- What TableCache gives its callers.
use e_lsm_p.Base.{ℕ, ◌≡◌, none, some, List}
use e_lsm_p.Status.{Status}
use e_lsm_p.TableCache.{Tables}

-- The documented behaviour of Cache: what was inserted or found last is found again, and what was
-- erased is not.
pub record IsCache (env : Tables) : Type 0 where
  pub lookup-insert :
      (key : List ℕ) (t : env.Table) (c : env.Cache)
      → (env.lookup key (env.insert key t c)).0 ≡ some t
  pub lookup-lookup :
      (key : List ℕ) (t : env.Table) (c : env.Cache)
      → (env.lookup key c).0 ≡ some t
      → (env.lookup key (env.lookup key c).1).0 ≡ some t
  pub lookup-erase : (key : List ℕ) (c : env.Cache) → (env.lookup key (env.erase key c)).0 ≡ none
