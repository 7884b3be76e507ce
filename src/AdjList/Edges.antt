-- ===== src/AdjList/Edges.antt =====
-- cfds/client/graph/adj-list.ts: what one side of `addEdge` and `deleteEdge` does.
use ovvio.Base.{
  ◌≡◌, ◌≢◌, refl, ap, subst, inl, inr, Bool, true, false, not, ◌||◌, ◌&&◌, some, arith,
  Option-cases, same,
}
use ovvio.Base.Maps
use ovvio.Base.Text.{JsString, string_discrete}
use ovvio.Collections.HashSet
use ovvio.Collections.HashSet.{HashSet, no_clone}
use ovvio.Collections.HashSet.Laws.{
  IsHashing, IsValid, add_answer, has-add, add-IsValid, delete_answer, has-delete, delete-IsValid,
}
use ovvio.AdjList.{Edge, hash_edge, eq_edges, Dict, set_at, add_side, delete_side}

pub eq_edges→eq : (a b : Edge) → eq_edges a b ≡ true → a ≡ b
unfolding eq_edges
eq_edges→eq a b h = ground arith

pub eq_edges_refl : (a : Edge) → eq_edges a a ≡ true
unfolding eq_edges
eq_edges_refl a = ground arith

pub edge_hashing : IsHashing hash_edge eq_edges
edge_hashing = record {
  laws = record {
    eq_refl = eq_edges_refl;
    eq_sym = λ a b h. subst (λ c. eq_edges c a ≡ true) (eq_edges→eq a b h) (eq_edges_refl a);
    eq_trans = λ a b c h k. subst (λ d. eq_edges a d ≡ true) (eq_edges→eq b c k) h;
  };
  hash_eq = λ a b h. ap hash_edge (eq_edges→eq a b h);
}

-- The edge is on this side.
unfoldable pub side_has : JsString → Edge → Dict → Bool
side_has v e dict = HashSet.has hash_edge eq_edges no_clone (set_at v dict) e

abbrev pub IsValidDict : Dict → Type 0
IsValidDict dict = (v : JsString) → IsValid hash_edge eq_edges (set_at v dict)

empty-has : (e : Edge) → HashSet.has hash_edge eq_edges no_clone HashSet.empty e ≡ false
unfolding HashSet.has Maps.get
empty-has e = refl

set_at-put :
    (v w : JsString) (s : HashSet Edge) (dict : Dict)
    → (v ≡ w → set_at w (Maps.put string_discrete v s dict) ≡ s)
      × (v ≢ w → set_at w (Maps.put string_discrete v s dict) ≡ set_at w dict)
unfolding set_at
set_at-put v w s dict = (
  λ e. ground (arith, Maps.get-put string_discrete v w s dict),
  λ n. ground (arith, Maps.get-put string_discrete v w s dict),
)

module _ (v w : JsString) (e e' : Edge) (dict : Dict) where
  pub add_side_answer : (add_side v e dict).1 ≡ not (side_has v e dict)
  unfolding add_side side_has
  add_side_answer = add_answer hash_edge eq_edges edge_hashing (set_at v dict) e

  pub side_has-add :
      side_has w e' (add_side v e dict).0
      ≡ (same string_discrete v w && eq_edges e e' || side_has w e' dict)
  unfolding add_side side_has
  side_has-add =
      let new = (HashSet.add hash_edge eq_edges no_clone (set_at v dict) e).0 in
      let (here, there) = set_at-put v w new dict in
      elim (string_discrete v w) [
        | yes p ↦ ground (
          arith,
          here p,
          ap (λ u. set_at u dict) p,
          has-add hash_edge eq_edges edge_hashing (set_at v dict) e e',
        )
        | no n ↦ ground (arith, there n)
      ]

  pub delete_side_answer : IsValidDict dict → (delete_side v e dict).1 ≡ side_has v e dict
  unfolding delete_side side_has set_at
  delete_side_answer valid = elim (Option-cases (Maps.get string_discrete v dict)) [
    | inl absent ↦ ground (arith, empty-has e)
    | inr (s, at) ↦
        ground (arith, delete_answer hash_edge eq_edges edge_hashing (set_at v dict) e (valid v))
  ]

  pub side_has-delete :
      IsValidDict dict
      → side_has w e' (delete_side v e dict).0
        ≡ (not (same string_discrete v w && eq_edges e e') && side_has w e' dict)
  unfolding delete_side side_has set_at
  side_has-delete valid = elim (Option-cases (Maps.get string_discrete v dict)) [
    | inl absent ↦ ground (arith, empty-has e')
    | inr (s, at) ↦
        let new = (HashSet.delete hash_edge eq_edges no_clone s e).0 in
        let (here, there) = set_at-put v w new dict in
        elim (string_discrete v w) [
          | yes p ↦ ground (
            arith,
            here p,
            ap (λ u. set_at u dict) p,
            has-delete hash_edge eq_edges edge_hashing (set_at v dict) e e' (valid v),
          )
          | no n ↦ ground (arith, there n)
        ]
  ]

module _ (v : JsString) (e : Edge) (dict : Dict) (valid : IsValidDict dict) where
  put-IsValidDict :
      (s : HashSet Edge)
      → IsValid hash_edge eq_edges s
      → IsValidDict (Maps.put string_discrete v s dict)
  put-IsValidDict s h w =
      let (here, there) = set_at-put v w s dict in
      elim (string_discrete v w) [ yes p ↦ rw (here p) h | no n ↦ rw (there n) (valid w) ]

  pub add_side-IsValidDict : IsValidDict (add_side v e dict).0
  unfolding add_side
  add_side-IsValidDict =
      put-IsValidDict _ (add-IsValid hash_edge eq_edges edge_hashing (set_at v dict) e (valid v))

  pub delete_side-IsValidDict : IsValidDict (delete_side v e dict).0
  unfolding delete_side
  delete_side-IsValidDict = elim (Option-cases (Maps.get string_discrete v dict)) [
    | inl absent ↦ rw (absent, delete_side) valid
    | inr (s, at) ↦
        rw (at, delete_side)
          (put-IsValidDict _ (delete-IsValid hash_edge eq_edges edge_hashing s e (valid_at s at)))
  ]
    where
      valid_at :
          (s : HashSet Edge)
          → Maps.get string_discrete v dict ≡ some s
          → IsValid hash_edge eq_edges s
      valid_at s at =
          let here : set_at v dict ≡ s = unfold set_at in ground arith in
          subst (IsValid hash_edge eq_edges) here (valid v)
