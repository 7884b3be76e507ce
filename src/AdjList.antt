-- ===== src/AdjList.antt =====
-- cfds/client/graph/adj-list.ts: the class `SimpleAdjacencyList`, two maps from a vertex to the
-- set of its edges, one for each direction. A failed assertion is `none`.
pub mod Edges
pub mod Sync
use mathlib.Core.Bool.{beq}
use ovvio.Base.{
  ltb, Bool, false, ◌&&◌, ◌||◌, List, [], ◌∷◌, ◌++◌, map, Option, none, some, is_some, same,
  if◌then◌else◌, filter,
}
use ovvio.Base.Maps
use ovvio.Base.Maps.{Map}
use ovvio.Base.Sets
use ovvio.Base.Text.{JsString, str, string_discrete}
use ovvio.Collections.HashSet
use ovvio.Collections.HashSet.{HashSet, no_clone}

pub record Edge : Type 0 where
  pub vertex : JsString
  pub field_name : JsString

unfoldable pub hash_edge : Edge → JsString
hash_edge e = e.vertex ++ str "/" ++ e.field_name

unfoldable pub eq_edges : Edge → Edge → Bool
eq_edges a b =
    same string_discrete a.vertex b.vertex && same string_discrete a.field_name b.field_name

abbrev pub Dict : Type 0
Dict = Map JsString (HashSet Edge)

pub record AdjList : Type 0 where
  pub in_edges_of : Dict
  pub out_edges_of : Dict

abbrev pub empty : AdjList
empty = record { in_edges_of = []; out_edges_of = [] }

-- `edgesOf.get(v)`, or a new set where there is none.
unfoldable pub set_at : JsString → Dict → HashSet Edge
set_at v dict = elim (Maps.get string_discrete v dict) [ none ↦ HashSet.empty | some s ↦ s ]

-- One side of `addEdge`: the set of `v` is made if there is none, and given the edge.
unfoldable pub add_side : JsString → Edge → Dict → Dict × Bool
unfolding set_at
add_side v e dict =
    let (s, success) = HashSet.add hash_edge eq_edges no_clone (set_at v dict) e in
    (Maps.put string_discrete v s dict, success)

unfoldable pub add_edge : AdjList → JsString → JsString → JsString → Option (AdjList × Bool)
add_edge a src dst field =
    let (out, success) =
      add_side src (record { vertex = dst; field_name = field }) a.out_edges_of in
    let (ins, again) = add_side dst (record { vertex = src; field_name = field }) a.in_edges_of in
    if beq success again
    then some (record { in_edges_of = ins; out_edges_of = out }, success)
    else none

-- One side of `deleteEdge`: a vertex with no set has no edge to delete.
unfoldable pub delete_side : JsString → Edge → Dict → Dict × Bool
delete_side v e dict = elim (Maps.get string_discrete v dict) [
  | none ↦ (dict, false)
  | some s ↦
      let (s', success) = HashSet.delete hash_edge eq_edges no_clone s e in
      (Maps.put string_discrete v s' dict, success)
]

unfoldable pub delete_edge : AdjList → JsString → JsString → JsString → Option (AdjList × Bool)
delete_edge a src dst field =
    let (out, success) =
      delete_side src (record { vertex = dst; field_name = field }) a.out_edges_of in
    let (ins, again) =
      delete_side dst (record { vertex = src; field_name = field }) a.in_edges_of in
    if beq success again
    then some (record { in_edges_of = ins; out_edges_of = out }, success)
    else none

unfoldable pub has_in_edges : AdjList → JsString → Bool
has_in_edges a key = elim (Maps.get string_discrete key a.in_edges_of) [
  | none ↦ false
  | some s ↦ ltb 0 (HashSet.size s)
]

-- `filterEdges`, with `undefined` for no field name.
unfoldable pub filter_edges : JsString → Option JsString → Dict → List Edge
filter_edges key field dict = elim (Maps.get string_discrete key dict) [
  | none ↦ []
  | some s ↦ elim field [
    | none ↦ HashSet.values hash_edge eq_edges s
    | some f ↦
        filter (λ e. same string_discrete e.field_name f) (HashSet.values hash_edge eq_edges s)
  ]
]

unfoldable pub in_edges : AdjList → JsString → Option JsString → List Edge
in_edges a key field = filter_edges key field a.in_edges_of

unfoldable pub out_edges : AdjList → JsString → Option JsString → List Edge
out_edges a key field = filter_edges key field a.out_edges_of

-- The loop over the in-edges of `uniqueEdges`, which skips the keys seen.
unseen : List JsString → List Edge → List JsString
unseen seen [] = []
unseen seen (e ∷ es) =
    let known = Sets.has string_discrete e.vertex seen in
    let rest = unseen (if known then seen else Sets.add string_discrete e.vertex seen) es in
    if known then rest else e.vertex ∷ rest

unfoldable pub unique_edges : AdjList → JsString → Option JsString → List JsString
unfolding unseen
unique_edges a key field =
    let out = map (λ e. e.vertex) (out_edges a key field) in
    out ++ unseen out (in_edges a key field)

unfoldable pub has_vertex : AdjList → JsString → Bool
has_vertex a key =
    is_some (Maps.get string_discrete key a.in_edges_of)
    || is_some (Maps.get string_discrete key a.out_edges_of)

any_to : JsString → List Edge → Bool
any_to dst [] = false
any_to dst (e ∷ es) = same string_discrete e.vertex dst || any_to dst es

-- `hasEdge`; a field name that is absent or empty asks for an edge of any field.
unfoldable pub has_edge : AdjList → JsString → JsString → Option JsString → Bool
unfolding any_to
has_edge a src dst field = elim field [
  | none ↦ any_to dst (out_edges a src none)
  | some [] ↦ any_to dst (out_edges a src none)
  | some (c ∷ f) ↦ elim (Maps.get string_discrete src a.out_edges_of) [
    | none ↦ false
    | some s ↦
        HashSet.has hash_edge eq_edges no_clone s (record { vertex = dst; field_name = c ∷ f })
  ]
]
