-- ===== src/Repo/Storage/Append.antt =====
-- repo/repo.ts: the two indexes of the storage in memory agree.
use mathlib.Core.Bool.{true, ◌||◌, ◌&&◌}
use ovvio.Base.{
  List, [], ◌∷◌, Option, none, some, arith, ◌≡◌, ◌↔◌, inl, inr, refl, sym, ap, ◌∙◌, subst,
  if◌then◌else◌, same, Any, Bool-cases, Option-cases,
}
use ovvio.Base.Maps
use ovvio.Base.Sets
use ovvio.Base.Text.{JsString, string_discrete, key_discrete}
use ovvio.Commit.{Records, Commit}
use ovvio.Repo.Storage.{MemRepoStorage, empty, ids_at, store, get_commit, collect, commits_for_key}

module _ (api : Records) where
  -- Every commit stands under its own id and is listed under its own key, and every listed id has
  -- a commit of that key.
  pub record IsValid (s : MemRepoStorage api) : Type 0 where
    pub named : (id : JsString) (c : Commit api) → get_commit api s id ≡ some c → c.id ≡ id
    pub indexed :
        (id : JsString) (c : Commit api)
        → get_commit api s id ≡ some c
        → Sets.has string_discrete id (ids_at api s c.key) ≡ true
    pub known :
        (key : Option JsString) (id : JsString)
        → Sets.has string_discrete id (ids_at api s key) ≡ true
        → (c : Commit api) × (get_commit api s id ≡ some c) × (c.key ≡ key)

  pub empty-IsValid : IsValid (empty api)
  unfolding get_commit ids_at Maps.get Sets.has
  empty-IsValid = record {
    named = λ id c h. absurd (cc);
    indexed = λ id c h. absurd (cc);
    known = λ key id h. absurd (cc);
  }

  module _ (s : MemRepoStorage api) (c : Commit api) where
    pub get_commit-store :
        (id : JsString)
        → get_commit api (store api s c) id
          ≡ (if same string_discrete c.id id then some c else get_commit api s id)
    unfolding get_commit store
    get_commit-store id = ground (arith, Maps.get-put string_discrete c.id id c s.by_id)

    has-store :
        (key : Option JsString) (id : JsString)
        → Sets.has string_discrete id (ids_at api (store api s c) key) ≡ (
            same key_discrete c.key key && same string_discrete c.id id
            || Sets.has string_discrete id (ids_at api s key))
    unfolding ids_at store
    has-store key id =
        let ids = Sets.add string_discrete c.id (ids_at api s c.key) in
        ground (
          arith,
          Maps.get-put key_discrete c.key key ids s.by_record_key,
          Sets.has-add string_discrete c.id id (ids_at api s c.key),
          Sets.has_nil string_discrete id,
        )

    pub store-IsValid : get_commit api s c.id ≡ none → IsValid s → IsValid (store api s c)
    store-IsValid fresh valid = record {
      named = λ id d h. ground (arith, get_commit-store id, valid.named id d);
      indexed =
          λ id d h. ground (arith, get_commit-store id, has-store d.key id, valid.indexed id d);
      known = λ key id h.
          elim (Bool-cases (same key_discrete c.key key && same string_discrete c.id id)) [
            | inl new ↦ (c, ground (arith, get_commit-store id), ground arith)
            | inr old ↦
                let (d, at, k) = valid.known key id (ground (arith, has-store key id)) in
                (d, ground (arith, get_commit-store id, id_at id), k)
          ];
    }
      where
        id_at : (id : JsString) → c.id ≡ id → get_commit api s id ≡ none
        id_at id e = subst (λ i. get_commit api s i ≡ none) e fresh

  collect-none :
      (s : MemRepoStorage api) (id : JsString) (ids : List JsString)
      → get_commit api s id ≡ none
      → collect api s (id ∷ ids) ≡ collect api s ids
  unfolding collect
  collect-none s id ids e = ground arith

  collect-some :
      (s : MemRepoStorage api) (id : JsString) (ids : List JsString) (c : Commit api)
      → get_commit api s id ≡ some c
      → collect api s (id ∷ ids) ≡ c ∷ collect api s ids
  unfolding collect
  collect-some s id ids c e = ground arith

  module _ (s : MemRepoStorage api) (c : Commit api) where
    -- A collected commit stands under one of the ids.
    collect-Any :
        (ids : List JsString)
        → Any (λ d. d ≡ c) (collect api s ids)
        → (id : JsString) × (Sets.has string_discrete id ids ≡ true)
          × (get_commit api s id ≡ some c)
    collect-Any [] m = absurd (unfold collect in m)
    collect-Any (id ∷ ids) m = elim (Option-cases (get_commit api s id)) [
      | inl none_at ↦
          let (i, listed, at) =
            collect-Any ids (subst (Any (λ d. d ≡ c)) (collect-none s id ids none_at) m) in
          (i, Sets.has_later string_discrete i id ids listed, at)
      | inr (d, at_d) ↦ elim (subst (Any (λ d. d ≡ c)) (collect-some s id ids d at_d) m) [
        | inl e ↦ (id, Sets.has_head string_discrete id ids, at_d ∙ ap some e)
        | inr later ↦
            let (i, listed, at) = collect-Any ids later in
            (i, Sets.has_later string_discrete i id ids listed, at)
      ]
    ]

    Any-collect :
        (ids : List JsString) (id : JsString)
        → get_commit api s id ≡ some c
        → Sets.has string_discrete id ids ≡ true
        → Any (λ d. d ≡ c) (collect api s ids)
    Any-collect [] id at h = absurd (unfold Sets.has in cc)
    Any-collect (i ∷ ids) id at h = elim (string_discrete i id) [
      | yes e ↦
          let here : get_commit api s i ≡ some c = ap (get_commit api s) e ∙ at in
          subst (Any (λ d. d ≡ c)) (sym (collect-some s i ids c here)) (inl refl)
      | no n ↦
          let later = Any-collect ids id at (Sets.has_tail string_discrete id i ids n h) in
          elim (Option-cases (get_commit api s i)) [
            | inl e ↦ subst (Any (λ d. d ≡ c)) (sym (collect-none s i ids e)) later
            | inr (d, e) ↦ subst (Any (λ d. d ≡ c)) (sym (collect-some s i ids d e)) (inr later)
          ]
    ]

  -- The commits of a key are exactly the stored commits that have it.
  pub commits_for_key_iff :
      (s : MemRepoStorage api) (key : Option JsString) (c : Commit api)
      → IsValid s
      → Any (λ d. d ≡ c) (commits_for_key api s key)
        ↔ ((get_commit api s c.id ≡ some c) × (c.key ≡ key))
  unfolding commits_for_key
  commits_for_key_iff s key c valid = (
    λ m.
        let (id, listed, at) = collect-Any s c (ids_at api s key) m in
        let (d, at', k) = valid.known key id listed in
        let same_commit : d ≡ c = ground arith in
        let here : c.id ≡ id = valid.named id c at in
        (
          subst (λ i. get_commit api s i ≡ some c) (sym here) at,
          ap (λ x. x.key) (sym same_commit) ∙ k,
        ),
    λ (at, k). Any-collect s c (ids_at api s key) c.id at (
        subst (λ x. Sets.has string_discrete c.id (ids_at api s x) ≡ true) k
          (valid.indexed c.id c at)),
  )
