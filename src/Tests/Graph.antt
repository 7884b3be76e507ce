-- ===== src/Tests/Graph.antt =====
-- cfds/client/graph/adj-list.ts at a small graph.
use ovvio.Base.{
  true, false, not, ◌||◌, ◌&&◌, some, none, [], ◌∷◌, refl, ◌≡◌, Option, ℕ_discrete, if◌then◌else◌,
  dec_lt,
}
use ovvio.Base.Maps
use ovvio.Base.Sets
use ovvio.Base.Text.{JsString, str, string_discrete}
use ovvio.Collections.HashSet
use ovvio.AdjList.{
  AdjList, hash_edge, eq_edges, set_at, add_side, add_edge, delete_side, delete_edge, has_in_edges,
  filter_edges, in_edges, out_edges, unique_edges, has_edge, empty,
}
use ovvio.AdjList.Sync.{is_edge, same_edge, IsSynced, empty-IsSynced, add_edge_lem, delete_edge_lem}

program : Unit {0}
unfolding hash_edge eq_edges set_at add_side add_edge delete_side delete_edge has_in_edges
    filter_edges in_edges out_edges unique_edges has_edge HashSet.add HashSet.has HashSet.delete
    HashSet.find HashSet.splice HashSet.size HashSet.values string_discrete ℕ_discrete dec_lt
    Maps.get Maps.put Maps.remove Sets.has Sets.add
program = tt

abbrev one : AdjList
one = (add_edge_lem empty empty-IsSynced (str "n") (str "ws") (str "workspace")).0

one-IsSynced : IsSynced one
one-IsSynced = (add_edge_lem empty empty-IsSynced (str "n") (str "ws") (str "workspace")).2

add_edge_lem_example :
    (a' : AdjList) × (add_edge one (str "n") (str "tag") (str "tags")
      ≡ some (a', not (is_edge one (str "n") (str "tag") (str "tags"))))
    × IsSynced a'
    × ((s d f : JsString)
        → is_edge a' s d f
          ≡ (same_edge s d f (str "n") (str "tag") (str "tags") || is_edge one s d f))
add_edge_lem_example = add_edge_lem one one-IsSynced (str "n") (str "tag") (str "tags")

delete_edge_lem_example :
    (a' : AdjList) × (delete_edge one (str "n") (str "ws") (str "workspace")
      ≡ some (a', is_edge one (str "n") (str "ws") (str "workspace")))
    × IsSynced a'
    × ((s d f : JsString)
        → is_edge a' s d f
          ≡ (not (same_edge s d f (str "n") (str "ws") (str "workspace")) && is_edge one s d f))
delete_edge_lem_example = delete_edge_lem one one-IsSynced (str "n") (str "ws") (str "workspace")

abbrev triangle : Option AdjList
triangle = elim (add_edge empty (str "a") (str "b") (str "x")) [
  | none ↦ none
  | some (g, _) ↦ elim (add_edge g (str "b") (str "a") (str "y")) [
    | none ↦ none
    | some (h, _) ↦ elim (add_edge h (str "a") (str "b") (str "x")) [
      | none ↦ none
      | some (k, new) ↦ if new then none else some k
    ]
  ]
]

triangle_reads :
    (elim triangle [ none ↦ [] | some g ↦ unique_edges g (str "a") none ] ≡ str "b" ∷ [])
    × (elim triangle [ none ↦ false | some g ↦ has_in_edges g (str "b") ] ≡ true)
    × (elim triangle [ none ↦ false | some g ↦ has_edge g (str "a") (str "b") (some (str "x")) ]
        ≡ true)
    × (elim triangle [ none ↦ true | some g ↦ has_edge g (str "b") (str "b") none ] ≡ false)
unfolding program
triangle_reads = (refl, refl, refl, refl)
