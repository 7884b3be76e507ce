-- ===== src/AdjList/Sync.antt =====
-- cfds/client/graph/adj-list.ts: both directions are in step, so no assertion fails, and the
-- structure is a set of labelled edges.
use ovvio.Base.{◌≡◌, ◌↔◌, refl, Bool, true, not, ◌||◌, ◌&&◌, some, arith, same, ltb}
use ovvio.Base.Maps
use ovvio.Base.Text.{JsString, string_discrete}
use ovvio.Collections.HashSet
use ovvio.Collections.HashSet.{no_clone}
use ovvio.Collections.HashSet.Laws.{empty-IsValid}
use ovvio.Collections.HashSet.Size.{size_pos}
use ovvio.AdjList.{
  Edge, AdjList, hash_edge, eq_edges, set_at, add_side, delete_side, add_edge, delete_edge,
  has_in_edges, empty,
}
use ovvio.AdjList.Edges.{
  edge_hashing, side_has, IsValidDict, add_side_answer, side_has-add, delete_side_answer,
  side_has-delete, add_side-IsValidDict, delete_side-IsValidDict,
}

abbrev edge : JsString → JsString → Edge
edge v f = record { vertex = v; field_name = f }

-- There is an edge from `src` to `dst` under the field.
unfoldable pub is_edge : AdjList → JsString → JsString → JsString → Bool
is_edge a src dst field = side_has src (edge dst field) a.out_edges_of

-- Both directions hold the same edges.
pub record IsSynced (a : AdjList) : Type 0 where
  pub out_valid : IsValidDict a.out_edges_of
  pub in_valid : IsValidDict a.in_edges_of
  pub in_step :
      (src dst field : JsString)
      → side_has dst (edge src field) a.in_edges_of ≡ side_has src (edge dst field) a.out_edges_of

-- The two triples are one edge.
abbrev pub same_edge : (s d f src dst field : JsString) → Bool
same_edge s d f src dst field =
    same string_discrete s src && same string_discrete d dst && same string_discrete f field

pub empty-IsSynced : IsSynced empty
unfolding set_at Maps.get side_has HashSet.has
empty-IsSynced = record {
  out_valid = λ v. empty-IsValid hash_edge eq_edges;
  in_valid = λ v. empty-IsValid hash_edge eq_edges;
  in_step = λ src dst field. refl;
}

eq_edges_lem :
    (e e' : Edge)
    → eq_edges e e'
      ≡ (same string_discrete e.vertex e'.vertex && same string_discrete e.field_name e'.field_name)
unfolding eq_edges
eq_edges_lem e e' = refl

module _ (a : AdjList) (synced : IsSynced a) (src dst field : JsString) where
  open synced use {out_valid, in_valid, in_step}

  -- `addEdge` never fails its assertion and answers whether the edge is new. It adds the one edge
  -- and changes no other, and leaves both directions in step.
  pub add_edge_lem :
      (a' : AdjList) × (add_edge a src dst field ≡ some (a', not (is_edge a src dst field)))
      × IsSynced a'
      × ((s d f : JsString) → is_edge a' s d f ≡ (same_edge s d f src dst field || is_edge a s d f))
  unfolding add_edge is_edge
  add_edge_lem =
      let (out, new) = add_side src (edge dst field) a.out_edges_of in
      let (ins, again) = add_side dst (edge src field) a.in_edges_of in
      (
        record { in_edges_of = ins; out_edges_of = out },
        ground (
          arith,
          add_side_answer src src (edge dst field) (edge dst field) a.out_edges_of,
          add_side_answer dst dst (edge src field) (edge src field) a.in_edges_of,
          in_step src dst field,
        ),
        record {
          out_valid = add_side-IsValidDict src (edge dst field) a.out_edges_of out_valid;
          in_valid = add_side-IsValidDict dst (edge src field) a.in_edges_of in_valid;
          in_step = λ s d f. ground (
            arith,
            side_has-add src s (edge dst field) (edge d f) a.out_edges_of,
            side_has-add dst d (edge src field) (edge s f) a.in_edges_of,
            in_step s d f,
            eq_edges_lem (edge dst field) (edge d f),
            eq_edges_lem (edge src field) (edge s f),
          );
        },
        λ s d f. ground (
          arith,
          side_has-add src s (edge dst field) (edge d f) a.out_edges_of,
          eq_edges_lem (edge dst field) (edge d f),
        ),
      )

  -- `deleteEdge` never fails its assertion and answers whether the edge was there. It removes the
  -- one edge and changes no other, and leaves both directions in step.
  pub delete_edge_lem :
      (a' : AdjList) × (delete_edge a src dst field ≡ some (a', is_edge a src dst field))
      × IsSynced a'
      × ((s d f : JsString)
          → is_edge a' s d f ≡ (not (same_edge s d f src dst field) && is_edge a s d f))
  unfolding delete_edge is_edge
  delete_edge_lem =
      let (out, new) = delete_side src (edge dst field) a.out_edges_of in
      let (ins, again) = delete_side dst (edge src field) a.in_edges_of in
      (
        record { in_edges_of = ins; out_edges_of = out },
        ground (
          arith,
          delete_side_answer src src (edge dst field) (edge dst field) a.out_edges_of out_valid,
          delete_side_answer dst dst (edge src field) (edge src field) a.in_edges_of in_valid,
          in_step src dst field,
        ),
        record {
          out_valid = delete_side-IsValidDict src (edge dst field) a.out_edges_of out_valid;
          in_valid = delete_side-IsValidDict dst (edge src field) a.in_edges_of in_valid;
          in_step = λ s d f. ground (
            arith,
            side_has-delete src s (edge dst field) (edge d f) a.out_edges_of out_valid,
            side_has-delete dst d (edge src field) (edge s f) a.in_edges_of in_valid,
            in_step s d f,
            eq_edges_lem (edge dst field) (edge d f),
            eq_edges_lem (edge src field) (edge s f),
          );
        },
        λ s d f. ground (
          arith,
          side_has-delete src s (edge dst field) (edge d f) a.out_edges_of out_valid,
          eq_edges_lem (edge dst field) (edge d f),
        ),
      )

-- The test reads the set of in-edges, which is empty where there is none.
has_in_edges-size :
    (a : AdjList) (key : JsString)
    → has_in_edges a key ≡ ltb 0 (HashSet.size (set_at key a.in_edges_of))
unfolding has_in_edges set_at HashSet.size
has_in_edges-size a key = ground arith

-- A vertex has in-edges exactly where some edge leads to it.
pub has_in_edges_iff :
    (a : AdjList) (key : JsString)
    → IsSynced a
    → (has_in_edges a key ≡ true) ↔ ((e : Edge) × (is_edge a e.vertex key e.field_name ≡ true))
unfolding is_edge
has_in_edges_iff a key synced =
    let (some_value, is_pos) =
      size_pos hash_edge eq_edges edge_hashing (set_at key a.in_edges_of) (synced.in_valid key) in
    (
      λ h.
          let (e, found) = some_value (ground (arith, has_in_edges-size a key)) in
          (e, unfold side_has in ground (arith, synced.in_step e.vertex key e.field_name, found)),
      λ (e, h).
          let pos =
            is_pos
              (e, unfold side_has in ground (arith, synced.in_step e.vertex key e.field_name, h)) in
          ground (arith, has_in_edges-size a key, pos),
    )
