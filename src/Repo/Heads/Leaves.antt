-- ===== src/Repo/Heads/Leaves.antt =====
-- repo/repo.ts: what `filterLatestCommitsByConnection` keeps.
use ovvio.Base.{◌≤◌, some, List, [], ◌∷◌, ◌≡◌, ◌≢◌, refl, sym, ◌∙◌, All, Any, All-self, map}
use ovvio.Base.Maps
use ovvio.Base.Maps.{Map}
use ovvio.Base.Text.{string_discrete}
use ovvio.Collections.Search.Bounds.{All-mono}
use ovvio.Commit.{Records, Commit}
use ovvio.Repo.Heads.{by_connection, filter_latest_commits_by_connection}
use ovvio.Repo.Heads.Latest.{
  Latest, get-All, get-Any, HasApartKeys, All-by_connection, by_connection-HasApartKeys,
  All-HasSince,
}

module _ (api : Records) where
  -- The connections differ from one commit to the next.
  abbrev pub HasApartConnections : List (Commit api) → Type 0
  HasApartConnections [] = Unit
  HasApartConnections (c ∷ cs) =
      All (λ d. d.connection_id ≢ c.connection_id) cs × HasApartConnections cs

  values-HasApartConnections :
      (m : Latest api)
      → All (λ e. e.1.connection_id ≡ e.0) m
      → HasApartKeys api m
      → HasApartConnections (map (λ e. e.1) m)
  unfolding HasApartKeys
  values-HasApartConnections [] named apart = tt
  values-HasApartConnections ((k, c) ∷ m) named apart =
      (others m named.1 apart.0, values-HasApartConnections m named.1 apart.1)
    where
      others :
          (xs : Latest api)
          → All (λ e. e.1.connection_id ≡ e.0) xs
          → All (λ x. x.0 ≢ k) xs
          → All (λ d. d.connection_id ≢ c.connection_id) (map (λ e. e.1) xs)
      others [] h h' = tt
      others (x ∷ xs) h h' = (λ e. h'.0 (sym h.0 ∙ e ∙ named.0), others xs h.1 h'.1)

  module _ (commits : List (Commit api)) where
    abbrev pub kept : List (Commit api)
    kept = filter_latest_commits_by_connection api commits

    -- The commits that are kept are among the given ones and have connections that differ, and for
    -- each given commit one of its connection is kept that is not older.
    pub filter_latest-kept :
        All (λ d. Any (λ c. c ≡ d) commits) kept
        × HasApartConnections kept
        × All
            (λ c.
              (d : Commit api) × Any (λ x. x ≡ d) kept
              × (d.connection_id ≡ c.connection_id)
              × (c.timestamp ≤ d.timestamp))
            commits
    unfolding filter_latest_commits_by_connection
    filter_latest-kept =
        let named =
          All-by_connection api (λ e. e.1.connection_id ≡ e.0) [] commits (all_refl commits) tt in
        let apart = by_connection-HasApartKeys api [] commits (unfold HasApartKeys in tt) in
        (
          values-All (λ d. Any (λ c. c ≡ d) commits) (by_connection api [] commits)
              (All-by_connection api (λ e. Any (λ c. c ≡ e.1) commits) [] commits (All-self commits)
                tt),
          values-HasApartConnections (by_connection api [] commits) named apart,
          All-mono _ _ commits (λ c has. found c has named) (All-HasSince api [] commits),
        )
      where
        all_refl : (cs : List (Commit api)) → All (λ c. c.connection_id ≡ c.connection_id) cs
        all_refl [] = tt
        all_refl (c ∷ cs) = (refl, all_refl cs)

        values-All :
            (P : Commit api → Type 0) (m : Latest api)
            → All (λ e. P e.1) m
            → All P (map (λ e. e.1) m)
        values-All P [] h = tt
        values-All P (e ∷ m) h = (h.0, values-All P m h.1)

        found :
            (c : Commit api)
            → (d : Commit api) × (Maps.get string_discrete c.connection_id
                  (by_connection api [] commits)
                ≡ some d)
              × (c.timestamp ≤ d.timestamp)
            → All (λ e. e.1.connection_id ≡ e.0) (by_connection api [] commits)
            → (d : Commit api) × Any (λ x. x ≡ d) (map (λ e. e.1) (by_connection api [] commits))
              × (d.connection_id ≡ c.connection_id)
              × (c.timestamp ≤ d.timestamp)
        found c (d, at, le) named = (
          d,
          get-Any api c.connection_id d _ at,
          get-All api (λ e. e.1.connection_id ≡ e.0) c.connection_id d _ at named,
          le,
        )
