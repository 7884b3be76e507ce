-- ===== src/Repo/Link/Linked.antt =====
-- repo/repo.ts: the graph of a repository holds exactly the links of the commits that it stores.
use ovvio.Base.{
  Bool, true, false, some, List, [], ◌∷◌, ◌≡◌, ◌↔◌, refl, sym, ap, ◌∙◌, subst, arith, All, Any,
  Any-All, All-Any, filter, ◌⊎◌, inl, inr, Bool-cases,
}
use ovvio.Base.Text.{JsString, str}
use ovvio.AdjList.{AdjList, has_in_edges}
use ovvio.AdjList.Sync.{is_edge, IsSynced, has_in_edges_iff}
use ovvio.Commit.{Records, Commit}
use ovvio.Repo.Storage.{MemRepoStorage, get_commit}
use ovvio.Repo.Storage.Append
use ovvio.Repo.Storage.Persist.{persist_commits-Grows}
use ovvio.Repo.Link.{Repo, is_ours, persist_batches, persist_verified_commits, slices}
use ovvio.Repo.Link.Slices.{Among, slices_from-Among, Among-slices_from}
use ovvio.Repo.Link.Edges.{Extends, BatchEdges, link_batch-Extends}
use ovvio.Repo.Link.Batch.{run, run-Clash, run-copies, run-origin}

module _ (api : Records) where
  -- A stored commit links its id to a parent.
  abbrev pub Links : MemRepoStorage api → JsString → JsString → JsString → Type 0
  Links s child p f =
      (c : Commit api) × (get_commit api s child ≡ some c)
      × (f ≡ str "parent")
      × Any (λ x. x ≡ p) c.parents

  -- Storage and graph are sound, and the edges are the links of the stored commits.
  pub record IsLinked (r : Repo api) : Type 0 where
    pub stored : Append.IsValid api r.storage
    pub synced : IsSynced r.adj_list
    pub linked :
        (child p f : JsString) → (is_edge r.adj_list child p f ≡ true) ↔ Links r.storage child p f

  -- In a linked repository a commit has in-edges, and is no leaf, exactly where a stored commit has
  -- it for a parent.
  pub has_in_edges-Links :
      (r : Repo api) (id : JsString)
      → IsLinked r
      → (has_in_edges r.adj_list id ≡ true) ↔ (
          (child : Commit api) × (get_commit api r.storage child.id ≡ some child)
          × Any (λ x. x ≡ id) child.parents)
  has_in_edges-Links r id l =
      let (to, from) = has_in_edges_iff r.adj_list id l.synced in
      (
        λ h.
            let (e, found) = to h in
            let (c, at, named, m) = (l.linked e.vertex id e.field_name).0 found in
            (
              c,
              subst (λ i. get_commit api r.storage i ≡ some c) (sym (l.stored.named e.vertex c at))
                  at,
              m,
            ),
        λ (c, at, m). from (
          record { vertex = c.id; field_name = str "parent" },
          (l.linked c.id id (str "parent")).1 (c, at, refl, m),
        ),
      )

  module _ (same_value : Commit api → Commit api → Bool)
      (same_parents : (c d : Commit api) → same_value c d ≡ true → d.parents ≡ c.parents) where
    batch-IsLinked :
        (r : Repo api) (batch : List (Commit api)) (a : AdjList)
        → IsLinked r
        → (run api same_value r.storage batch).completed ≡ true
        → Extends r.adj_list a (BatchEdges api batch)
        → IsLinked (record { storage = (run api same_value r.storage batch).storage; adj_list = a })
    batch-IsLinked r batch a l done ext =
        let p = run api same_value r.storage batch in
        let g = persist_commits-Grows api same_value r.storage batch l.stored in
        let copies = run-copies api same_value same_parents r.storage batch l.stored done in
        record {
          stored = g.valid;
          synced = ext.synced;
          linked = λ child q f. (
            λ h. elim ((ext.edges child q f).0 h) [
              | inl old ↦
                  let (c, at, named, m) = (l.linked child q f).0 old in
                  (c, g.kept child c at, named, m)
              | inr new ↦ from_batch p.storage child q f batch copies new
            ],
            λ (c, at, named, m).
                (ext.edges child q f).1
                  (elim (run-origin api same_value same_parents r.storage batch child c l.stored
                    done at) [
                      | inl before ↦ inl ((l.linked child q f).1 (c, before, named, m))
                      | inr given ↦ inr (
                          to_batch child q f c (sym (g.valid.named child c at)) named m batch given)
                    ]),
          );
        }
      where
        from_batch :
            (s : MemRepoStorage api) (child q f : JsString) (cs : List (Commit api))
            → All
                (λ c. (d : Commit api) × (get_commit api s c.id ≡ some d) × (d.parents ≡ c.parents))
                cs
            → BatchEdges api cs child q f
            → Links s child q f
        from_batch s child q f [] h m = absurd m
        from_batch s child q f (c ∷ cs) h m = elim m [
          | inl (ec, ef, mp) ↦
              let (d, at, e) = h.0 in
              (
                d,
                subst (λ i. get_commit api s i ≡ some d) (sym ec) at,
                ef,
                subst (Any (λ x. x ≡ q)) (sym e) mp,
              )
          | inr later ↦ from_batch s child q f cs h.1 later
        ]

        to_batch :
            (child q f : JsString) (c : Commit api)
            → child ≡ c.id
            → f ≡ str "parent"
            → Any (λ x. x ≡ q) c.parents
            → (cs : List (Commit api)) → Any (λ x. x ≡ c) cs
            → BatchEdges api cs child q f
        to_batch child q f c ec ef m [] given = absurd given
        to_batch child q f c ec ef m (d ∷ cs) given = elim given [
          | inl e ↦
              inl
                (ec ∙ ap (λ x. x.id) (sym e), ef, subst (λ x. Any (λ y. y ≡ q) x.parents) (sym e) m)
          | inr later ↦ inr (to_batch child q f c ec ef m cs later)
        ]

    -- The storage has a copy of the commit, with its parents.
    abbrev pub IsTaken : MemRepoStorage api → Commit api → Type 0
    IsTaken s c = (d : Commit api) × (get_commit api s c.id ≡ some d) × (d.parents ≡ c.parents)

    -- What a run over the batches comes to.
    pub record Runs (s t : MemRepoStorage api) (batches : List (List (Commit api))) : Type 0 where
      pub kept :
          (id : JsString) (c : Commit api)
          → get_commit api s id ≡ some c
          → get_commit api t id ≡ some c
      pub taken : (c : Commit api) → Among batches c → IsTaken t c

    abbrev ClashIn : MemRepoStorage api → List (List (Commit api)) → Type 0
    ClashIn s batches =
        (c : Commit api) × (d : Commit api) × Among batches c
        × (get_commit api s c.id ≡ some d)
        × (same_value c d ≡ false)

    batches-IsLinked :
        (r : Repo api) (batches : List (List (Commit api)))
        → IsLinked r
        → let o = persist_batches api same_value r batches in
          (o.completed ≡ true) × IsLinked o.repo × Runs r.storage o.repo.storage batches
          ⊎ (o.completed ≡ false) × ClashIn o.repo.storage batches
    unfolding persist_batches
    batches-IsLinked r [] l = inl (refl, l, record { kept = λ id c h. h; taken = λ c n. absurd n })
    batches-IsLinked r (b ∷ bs) l = elim (Bool-cases (run api same_value r.storage b).completed) [
      | inr failed ↦
          let (c, d, m, e, n) = run-Clash api same_value r.storage b l.stored failed in
          let left : (persist_batches api same_value r (b ∷ bs)).repo.storage
              ≡ (run api same_value r.storage b).storage =
            ground arith in
          inr (
            ground arith,
            (c, d, inl m, subst (λ s. get_commit api s c.id ≡ some d) (sym left) e, n),
          )
      | inl done ↦
          let (a, linked, ext) = link_batch-Extends api r.adj_list b l.synced in
          let next : Repo api = record {
            storage = (run api same_value r.storage b).storage;
            adj_list = a;
          } in
          let step : (persist_batches api same_value r (b ∷ bs)).repo
              ≡ (persist_batches api same_value next bs).repo =
            ground arith in
          let grows = persist_commits-Grows api same_value r.storage b l.stored in
          let copies = run-copies api same_value same_parents r.storage b l.stored done in
          elim (batches-IsLinked next bs (batch-IsLinked r b a l done ext)) [
            | inl (all, l', runs) ↦ inl (
              ground arith,
              subst IsLinked (sym step) l',
              subst (λ o. Runs r.storage o.storage (b ∷ bs)) (sym step)
                  (record {
                    kept = λ id c h. runs.kept id c (grows.kept id c h);
                    taken = λ c m. elim m [
                      | inl here ↦
                          let (d, at, e) = Any-All (IsTaken next.storage) c b here copies in
                          (d, runs.kept c.id d at, e)
                      | inr later ↦ runs.taken c later
                    ];
                  }),
            )
            | inr (failed, (c, d, m, e, n)) ↦ inr (
              ground arith,
              (c, d, inr m, subst (λ o. get_commit api o.storage c.id ≡ some d) (sym step) e, n),
            )
          ]
    ]

    -- A linked repository that comes to the end of the batches is linked: its edges are the links of
    -- the stored commits. It has kept what it stored, and holds a copy, with the same parents, of each
    -- given commit that is of its organization or of none. It does not come to the end only where such
    -- a commit differs from the one that is stored under its id. Commits that count as the same have
    -- the same parents.
    pub persist_verified-IsLinked :
        (org_id : JsString) (r : Repo api) (commits : List (Commit api))
        → IsLinked r
        → let o = persist_verified_commits api same_value org_id r commits in
          (o.completed ≡ true)
            × IsLinked o.repo
            × ((id : JsString) (c : Commit api)
                → get_commit api r.storage id ≡ some c
                → get_commit api o.repo.storage id ≡ some c)
            × All (IsTaken o.repo.storage) (filter (is_ours api org_id) commits)
          ⊎ (o.completed ≡ false)
            × ((c : Commit api) × (d : Commit api) × Any
                  (λ x. x ≡ c)
                  (filter (is_ours api org_id) commits)
                × (get_commit api o.repo.storage c.id ≡ some d)
                × (same_value c d ≡ false))
    unfolding persist_verified_commits slices
    persist_verified-IsLinked org_id r commits l =
        let ours : List (Commit api) = filter (is_ours api org_id) commits in
        elim (batches-IsLinked r (slices 50 ours) l) [
          | inl (done, l', runs) ↦ inl (
            done,
            l',
            runs.kept,
            All-Any _ ours (λ c m. runs.taken c (Among-slices_from c 50 [] ours (inr m))),
          )
          | inr (failed, (c, d, m, e, n)) ↦ inr (
            failed,
            (
              c,
              d,
              elim (slices_from-Among c 50 [] ours m) [
                | inl none_left ↦ absurd none_left
                | inr m' ↦ m'
              ],
              e,
              n,
            ),
          )
        ]
