-- ===== src/Repo/Link/Edges.antt =====
-- repo/repo.ts: the edges that a batch of commits adds to the graph.
use ovvio.Base.{
  Bool, true, ◌||◌, some, List, [], ◌∷◌, ◌≡◌, ◌↔◌, refl, sym, arith, Any, ◌⊎◌, inl, inr,
}
use ovvio.Base.Text.{JsString, str, string_discrete}
use ovvio.AdjList.{AdjList}
use ovvio.AdjList.Sync.{is_edge, same_edge, IsSynced, add_edge_lem}
use ovvio.Commit.{Records, Commit}
use ovvio.Repo.Link.{link_parents, link_batch}

-- The graph is in step and has, beside the edges of `a`, the edges that `New` tells.
pub record Extends (a a' : AdjList) (New : JsString → JsString → JsString → Type 0) : Type 0 where
  pub synced : IsSynced a'
  pub edges :
      (s d f : JsString) → (is_edge a' s d f ≡ true) ↔ ((is_edge a s d f ≡ true) ⊎ New s d f)

module _ (api : Records) where
  abbrev pub ParentEdges : JsString → List JsString → JsString → JsString → JsString → Type 0
  ParentEdges id ps s d f = (s ≡ id) × (f ≡ str "parent") × Any (λ p. p ≡ d) ps

  abbrev pub BatchEdges : List (Commit api) → JsString → JsString → JsString → Type 0
  BatchEdges cs s d f = Any (λ c. ParentEdges c.id c.parents s d f) cs

  link_parents-Extends :
      (a : AdjList) (id : JsString) (ps : List JsString)
      → IsSynced a
      → (a' : AdjList) × (link_parents api a id ps ≡ some a') × Extends a a' (ParentEdges id ps)
  unfolding link_parents
  link_parents-Extends a id [] synced = (
    a,
    refl,
    record {
      synced = synced;
      edges = λ s d f. (inl, λ h. elim h [ inl e ↦ e | inr n ↦ absurd n.2 ]);
    },
  )
  link_parents-Extends a id (p ∷ ps) synced =
      let (b, added, synced', new) = add_edge_lem a synced id p (str "parent") in
      let (a', linked, ext) = link_parents-Extends b id ps synced' in
      (
        a',
        ground arith,
        record {
          synced = ext.synced;
          edges = λ s d f. (
            λ h. elim ((ext.edges s d f).0 h) [
              | inl e ↦ elim (split s d f (sym (new s d f)) e) [
                | inl (es, (ed, ef)) ↦ inr (es, ef, inl (sym ed))
                | inr old ↦ inl old
              ]
              | inr (es, ef, m) ↦ inr (es, ef, inr m)
            ],
            λ h. (ext.edges s d f).1 (elim h [
              | inl old ↦ inl (ground (arith, new s d f))
              | inr (es, ef, inl ed) ↦ inl (join s d f es (sym ed) ef (new s d f))
              | inr (es, ef, inr m) ↦ inr (es, ef, m)
            ]),
          );
        },
      )
    where
      split :
          (s d f : JsString)
          → {x : Bool} → (same_edge s d f id p (str "parent") || is_edge a s d f) ≡ x
          → x ≡ true
          → ((s ≡ id) × ((d ≡ p) × (f ≡ str "parent"))) ⊎ (is_edge a s d f ≡ true)
      split s d f e h = elim (string_discrete s id) [
        | no n ↦ inr (ground arith)
        | yes es ↦ elim (string_discrete d p) [
          | no n ↦ inr (ground arith)
          | yes ed ↦ elim (string_discrete f (str "parent")) [
            | no n ↦ inr (ground arith)
            | yes ef ↦ inl (es, (ed, ef))
          ]
        ]
      ]

      join :
          (s d f : JsString)
          → {x : Bool} → s ≡ id
          → d ≡ p
          → f ≡ str "parent"
          → x ≡ (same_edge s d f id p (str "parent") || is_edge a s d f)
          → x ≡ true
      join s d f es ed ef e = ground arith

  -- A batch is linked without a failed assertion, where the graph is in step, and adds exactly the
  -- edges from its commits to their parents.
  pub link_batch-Extends :
      (a : AdjList) (cs : List (Commit api))
      → IsSynced a
      → (a' : AdjList) × (link_batch api a cs ≡ some a') × Extends a a' (BatchEdges cs)
  unfolding link_batch
  link_batch-Extends a [] synced = (
    a,
    refl,
    record {
      synced = synced;
      edges = λ s d f. (inl, λ h. elim h [ inl e ↦ e | inr n ↦ absurd n ]);
    },
  )
  link_batch-Extends a (c ∷ cs) synced =
      let (b, linked, ext) = link_parents-Extends a c.id c.parents synced in
      let (a', linked', ext') = link_batch-Extends b cs ext.synced in
      (
        a',
        ground arith,
        record {
          synced = ext'.synced;
          edges = λ s d f. (
            λ h. elim ((ext'.edges s d f).0 h) [
              | inl e ↦ elim ((ext.edges s d f).0 e) [ inl old ↦ inl old | inr n ↦ inr (inl n) ]
              | inr m ↦ inr (inr m)
            ],
            λ h. (ext'.edges s d f).1 (elim h [
              | inl old ↦ inl ((ext.edges s d f).1 (inl old))
              | inr (inl n) ↦ inl ((ext.edges s d f).1 (inr n))
              | inr (inr m) ↦ inr m
            ]),
          );
        },
      )
