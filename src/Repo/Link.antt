-- ===== src/Repo/Link.antt =====
-- repo/repo.ts: how commits enter a repository, into its storage and into the graph of its commits:
-- the filter and the batches of `persistVerifiedCommits`. The caches that it drops are left out, and
-- so is what follows the batches: the updates for new leaves, with the sessions that they bring into
-- the trust pool, and the events.
pub mod Edges
pub mod Batch
pub mod Slices
pub mod Linked
use ovvio.Base.{
  ℕ, Bool, true, false, Option, none, some, List, [], ◌∷◌, ◌++◌, same, leb, length, filter,
  if◌then◌else◌,
}
use ovvio.Base.Text.{JsString, str, string_discrete}
use ovvio.AdjList.{AdjList, add_edge}
use ovvio.Commit.{Records, Commit}
use ovvio.Repo.Storage.{MemRepoStorage, persist_commits}

-- `ArrayUtils.slices` of an iterable, from the slice that is open.
unfoldable pub slices_from {ℓ} : {A : Type ℓ} → ℕ → List A → List A → List (List A)
slices_from size [] [] = []
slices_from size (s ∷ slice) [] = (s ∷ slice) ∷ []
slices_from size slice (v ∷ vs) =
    let full = slices_from size [] vs in
    let more = slices_from size (slice ++ v ∷ []) vs in
    if leb size (length (slice ++ v ∷ [])) then (slice ++ v ∷ []) ∷ full else more

unfoldable pub slices {ℓ} : {A : Type ℓ} → ℕ → List A → List (List A)
unfolding slices_from
slices size values = slices_from size [] values

module _ (api : Records) where
  pub record Repo : Type 0 where
    pub storage : MemRepoStorage api
    pub adj_list : AdjList

  -- `for (const p of c.parents) adjList.addEdge(c.id, p, 'parent')`
  unfoldable pub link_parents : AdjList → JsString → List JsString → Option AdjList
  link_parents a id [] = some a
  link_parents a id (p ∷ ps) = elim (add_edge a id p (str "parent")) [
    | none ↦ none
    | some (a', _) ↦ link_parents a' id ps
  ]

  unfoldable pub link_batch : AdjList → List (Commit api) → Option AdjList
  unfolding link_parents
  link_batch a [] = some a
  link_batch a (c ∷ cs) = elim (link_parents a c.id c.parents) [
    | none ↦ none
    | some a' ↦ link_batch a' cs
  ]

  -- The repository behind the run, the commits that it stored, and whether it came to the end or
  -- an assertion failed.
  pub record Outcome : Type 0 where
    pub repo : Repo
    pub result : List (Commit api)
    pub completed : Bool

  -- `c.orgId === undefined || c.orgId === this.orgId`
  abbrev pub is_ours : JsString → Commit api → Bool
  is_ours org_id c = elim c.org_id [ none ↦ true | some o ↦ same string_discrete o org_id ]

  module _ (same_value : Commit api → Commit api → Bool) where
    unfoldable pub persist_batches : Repo → List (List (Commit api)) → Outcome
    unfolding link_batch
    persist_batches r [] = record { repo = r; result = []; completed = true }
    persist_batches r (batch ∷ batches) =
        let p = persist_commits api same_value r.storage batch in
        elim p.completed [
          | false ↦ record {
            repo = record r { storage = p.storage };
            result = [];
            completed = false;
          }
          | true ↦ elim (link_batch r.adj_list batch) [
            | none ↦ record {
              repo = record r { storage = p.storage };
              result = [];
              completed = false;
            }
            | some a ↦
                let rest = persist_batches (record { storage = p.storage; adj_list = a }) batches in
                record rest { result = p.yielded ++ rest.result }
          ]
        ]

    unfoldable pub persist_verified_commits : JsString → Repo → List (Commit api) → Outcome
    unfolding persist_batches slices
    persist_verified_commits org_id r commits =
        persist_batches r (slices 50 (filter (is_ours org_id) commits))
