-- ===== src/Repo/Storage/Persist.antt =====
-- repo/repo.ts: `persistCommits` of the storage in memory only adds commits.
use mathlib.Core.Bool.{Bool, true, false}
use ovvio.Base.{
  List, [], ◌∷◌, none, some, arith, ◌≡◌, inl, inr, refl, sym, ap, ◌∙◌, subst, if◌then◌else◌, same,
  All, Bool-cases, Option-cases,
}
use ovvio.Base.Text.{JsString}
use ovvio.Collections.Search.Bounds.{All-mono}
use ovvio.Commit.{Records, Commit}
use ovvio.Repo.Storage.Append.{IsValid, get_commit-store, store-IsValid}
use ovvio.Repo.Storage.{MemRepoStorage, store, get_commit, Persisted, persist_commits}

module _ (api : Records) where
  module _ (same_value : Commit api → Commit api → Bool) where
    abbrev pub persist : MemRepoStorage api → List (Commit api) → Persisted api
    persist s cs = persist_commits api same_value s cs

    pub persist_new :
        (s : MemRepoStorage api) (c : Commit api) (cs : List (Commit api))
        → get_commit api s c.id ≡ none
        → persist s (c ∷ cs) ≡ record (persist (store api s c) cs) {
          yielded = c ∷ (persist (store api s c) cs).yielded;
        }
    unfolding persist_commits
    persist_new s c cs e = ground arith

    pub persist_known :
        (s : MemRepoStorage api) (c d : Commit api) (cs : List (Commit api))
        → get_commit api s c.id ≡ some d
        → persist s (c ∷ cs) ≡ (
            if same_value c d
            then persist s cs
            else record { storage = s; yielded = []; completed = false })
    unfolding persist_commits
    persist_known s c d cs e = ground arith

    -- What a run from `s` leaves behind.
    pub record Grows (s : MemRepoStorage api) (p : Persisted api) : Type 0 where
      pub valid : IsValid api p.storage
      pub kept :
          (id : JsString) (c : Commit api)
          → get_commit api s id ≡ some c
          → get_commit api p.storage id ≡ some c
      pub stored :
          All
            (λ c. (get_commit api s c.id ≡ none) × (get_commit api p.storage c.id ≡ some c))
            p.yielded

    Grows-nothing :
        (s : MemRepoStorage api) (b : Bool)
        → IsValid api s
        → Grows s (record { storage = s; yielded = []; completed = b })
    Grows-nothing s b valid = record { valid = valid; kept = λ id c h. h; stored = tt }

    Grows-new :
        (s : MemRepoStorage api) (c : Commit api) (p : Persisted api)
        → get_commit api s c.id ≡ none
        → Grows (store api s c) p
        → Grows s (record p { yielded = c ∷ p.yielded })
    Grows-new s c p fresh g = record {
      valid = g.valid;
      kept = λ id d h. g.kept id d (still id d h);
      stored = ((fresh, g.kept c.id c here), All-mono _ _ p.yielded older g.stored);
    }
      where
        here : get_commit api (store api s c) c.id ≡ some c
        here = ground (arith, get_commit-store api s c c.id)

        still :
            (id : JsString) (d : Commit api)
            → get_commit api s id ≡ some d
            → get_commit api (store api s c) id ≡ some d
        still id d h =
            ground (arith, get_commit-store api s c id, ap (get_commit api s) {x = c.id} {y = id})

        older :
            (d : Commit api)
            → (get_commit api (store api s c) d.id ≡ none)
              × (get_commit api p.storage d.id ≡ some d)
            → (get_commit api s d.id ≡ none) × (get_commit api p.storage d.id ≡ some d)
        older d (n, e) = (ground (arith, get_commit-store api s c d.id), e)

    -- A run keeps the storage valid, also where its assertion fails. It keeps every commit that
    -- was there, and what it yields is stored now and was not before.
    pub persist_commits-Grows :
        (s : MemRepoStorage api) (cs : List (Commit api)) → IsValid api s → Grows s (persist s cs)
    persist_commits-Grows s [] valid = unfold persist_commits in Grows-nothing s true valid
    persist_commits-Grows s (c ∷ cs) valid = elim (Option-cases (get_commit api s c.id)) [
      | inl fresh ↦ subst (Grows s) (sym (persist_new s c cs fresh)) (
          Grows-new s c _ fresh
            (persist_commits-Grows (store api s c) cs (store-IsValid api s c fresh valid)))
      | inr (d, at) ↦
          let rest = persist_commits-Grows s cs valid in
          elim (Bool-cases (same_value c d)) [
            | inl same ↦ subst (Grows s) (sym (persist_known s c d cs at)) (rw same rest)
            | inr clash ↦
                subst (Grows s) (sym (persist_known s c d cs at))
                  (rw clash (Grows-nothing s false valid))
          ]
    ]

    -- What a run leaves behind, a run from any later storage finds in place.
    persist_settled :
        ((c : Commit api) → same_value c c ≡ true)
        → (s t : MemRepoStorage api) (cs : List (Commit api)) → IsValid api s
        → (persist s cs).completed ≡ true
        → ((id : JsString) (c : Commit api)
            → get_commit api (persist s cs).storage id ≡ some c
            → get_commit api t id ≡ some c)
        → persist t cs ≡ record { storage = t; yielded = []; completed = true }
    persist_settled refl_value s t [] valid h later = unfold persist_commits in refl
    persist_settled refl_value s t (c ∷ cs) valid h later =
        elim (Option-cases (get_commit api s c.id)) [
          | inl fresh ↦
              let e = persist_new s c cs fresh in
              let next = store-IsValid api s c fresh valid in
              let g = persist_commits-Grows (store api s c) cs next in
              let here : get_commit api (store api s c) c.id ≡ some c =
                ground (arith, get_commit-store api s c c.id) in
              let at : get_commit api t c.id ≡ some c =
                later c.id c (ap (λ p. get_commit api p.storage c.id) e ∙ g.kept c.id c here) in
              persist_known t c c cs at
              ∙ rw (refl_value c) (
                  persist_settled refl_value (store api s c) t cs next
                    (ap (λ p. p.completed) (sym e) ∙ h)
                    (λ id d k. later id d (ap (λ p. get_commit api p.storage id) e ∙ k)))
          | inr (d, at) ↦
              let e = persist_known s c d cs at in
              elim (Bool-cases (same_value c d)) [
                | inr clash ↦ absurd (ground (arith, e, h, clash))
                | inl same ↦
                    let e' : persist s (c ∷ cs) ≡ persist s cs = ground arith in
                    let g = persist_commits-Grows s cs valid in
                    let at_t : get_commit api t c.id ≡ some d =
                      later c.id d
                        (ap (λ p. get_commit api p.storage c.id) e' ∙ g.kept c.id d at) in
                    persist_known t c d cs at_t
                    ∙ rw same (
                        persist_settled refl_value s t cs valid (ap (λ p. p.completed) (sym e') ∙ h)
                          (λ id x k. later id x (ap (λ p. get_commit api p.storage id) e' ∙ k)))
              ]
        ]

    -- A run that comes to its end leaves nothing to do: a second one yields nothing and changes
    -- nothing.
    pub persist_commits_idem :
        ((c : Commit api) → same_value c c ≡ true)
        → (s : MemRepoStorage api) (cs : List (Commit api)) → IsValid api s
        → (persist s cs).completed ≡ true
        → persist (persist s cs).storage cs
          ≡ record { storage = (persist s cs).storage; yielded = []; completed = true }
    persist_commits_idem refl_value s cs valid h =
        persist_settled refl_value s (persist s cs).storage cs valid h (λ id c k. k)
