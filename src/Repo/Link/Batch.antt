-- ===== src/Repo/Link/Batch.antt =====
-- repo/repo.ts: what a batch of commits leaves in the storage, and when it fails.
use ovvio.Base.{
  Bool, true, false, some, List, [], ◌∷◌, ◌≡◌, refl, sym, ap, ◌∙◌, subst, arith, All, Any, ◌⊎◌, inl,
  inr, Bool-cases, Option-cases,
}
use ovvio.Base.Text.{JsString, string_discrete}
use ovvio.Commit.{Records, Commit}
use ovvio.Repo.Storage.{MemRepoStorage, Persisted, get_commit, store}
use ovvio.Repo.Storage.Append
use ovvio.Repo.Storage.Append.{get_commit-store, store-IsValid}
use ovvio.Repo.Storage.Persist.{persist, persist_new, persist_known, persist_commits-Grows}

module _ (api : Records) (same_value : Commit api → Commit api → Bool) where
  abbrev pub run : MemRepoStorage api → List (Commit api) → Persisted api
  run s cs = persist api same_value s cs

  -- A given commit differs from the one that the storage has under its id.
  abbrev pub Clash : MemRepoStorage api → List (Commit api) → Type 0
  Clash s cs =
      (c : Commit api) × (d : Commit api) × Any (λ x. x ≡ c) cs
      × (get_commit api s c.id ≡ some d)
      × (same_value c d ≡ false)

  later-Clash :
      (s : MemRepoStorage api) (c : Commit api) (cs : List (Commit api))
      → Clash s cs
      → Clash s (c ∷ cs)
  later-Clash s c cs (x, d, m, e, n) = (x, d, inr m, e, n)

  pub run-Clash :
      (s : MemRepoStorage api) (cs : List (Commit api))
      → Append.IsValid api s
      → (run s cs).completed ≡ false
      → Clash (run s cs).storage cs
  run-Clash s [] valid h = absurd (unfold ovvio.Repo.Storage.persist_commits in cc)
  run-Clash s (c ∷ cs) valid h = elim (Option-cases (get_commit api s c.id)) [
    | inl fresh ↦
        let e = persist_new api same_value s c cs fresh in
        subst (λ m. Clash m (c ∷ cs)) (sym (ap (λ p. p.storage) e))
          (later-Clash _ c cs (
            run-Clash (store api s c) cs (store-IsValid api s c fresh valid)
              (ap (λ p. p.completed) (sym e) ∙ h)))
    | inr (d, at) ↦
        let e = persist_known api same_value s c d cs at in
        elim (Bool-cases (same_value c d)) [
          | inr clash ↦ (
            c,
            d,
            inl refl,
            (persist_commits-Grows api same_value s (c ∷ cs) valid).kept c.id d at,
            clash,
          )
          | inl equal ↦
              let e' : run s (c ∷ cs) ≡ run s cs = ground arith in
              subst (λ m. Clash m (c ∷ cs)) (sym (ap (λ p. p.storage) e'))
                (later-Clash _ c cs (run-Clash s cs valid (ap (λ p. p.completed) (sym e') ∙ h)))
        ]
  ]

  module _ (same_parents : (c d : Commit api) → same_value c d ≡ true → d.parents ≡ c.parents) where
    -- Every given commit has a copy in the storage.
    pub run-copies :
        (s : MemRepoStorage api) (cs : List (Commit api))
        → Append.IsValid api s
        → (run s cs).completed ≡ true
        → All
            (λ c.
              (d : Commit api) × (get_commit api (run s cs).storage c.id ≡ some d)
              × (d.parents ≡ c.parents))
            cs
    run-copies s [] valid h = tt
    run-copies s (c ∷ cs) valid h = elim (Option-cases (get_commit api s c.id)) [
      | inl fresh ↦
          let e = persist_new api same_value s c cs fresh in
          let t = store api s c in
          let next = store-IsValid api s c fresh valid in
          let here : get_commit api t c.id ≡ some c =
            ground (arith, get_commit-store api s c c.id) in
          subst
            (λ m.
              All
                (λ x. (d : Commit api) × (get_commit api m x.id ≡ some d) × (d.parents ≡ x.parents))
                (c ∷ cs))
            (sym (ap (λ p. p.storage) e))
            (
              (c, (persist_commits-Grows api same_value t cs next).kept c.id c here, refl),
              run-copies t cs next (ap (λ p. p.completed) (sym e) ∙ h),
            )
      | inr (d, at) ↦
          let e = persist_known api same_value s c d cs at in
          elim (Bool-cases (same_value c d)) [
            | inr clash ↦ absurd (ground (arith, e, h, clash))
            | inl equal ↦
                let e' : run s (c ∷ cs) ≡ run s cs = ground arith in
                subst
                  (λ m.
                    All
                      (λ x.
                        (d : Commit api) × (get_commit api m x.id ≡ some d)
                        × (d.parents ≡ x.parents))
                      (c ∷ cs))
                  (sym (ap (λ p. p.storage) e'))
                  (
                    (
                      d,
                      (persist_commits-Grows api same_value s cs valid).kept c.id d at,
                      same_parents c d equal,
                    ),
                    run-copies s cs valid (ap (λ p. p.completed) (sym e') ∙ h),
                  )
          ]
    ]

    -- A stored commit was there before or is one of those given.
    pub run-origin :
        (s : MemRepoStorage api) (cs : List (Commit api)) (id : JsString) (x : Commit api)
        → Append.IsValid api s
        → (run s cs).completed ≡ true
        → get_commit api (run s cs).storage id ≡ some x
        → (get_commit api s id ≡ some x) ⊎ Any (λ c. c ≡ x) cs
    run-origin s [] id x valid h at = inl (unfold ovvio.Repo.Storage.persist_commits in at)
    run-origin s (c ∷ cs) id x valid h at = elim (Option-cases (get_commit api s c.id)) [
      | inl fresh ↦
          let e = persist_new api same_value s c cs fresh in
          elim (run-origin (store api s c) cs id x (store-IsValid api s c fresh valid)
            (ap (λ p. p.completed) (sym e) ∙ h)
            (ap (λ p. get_commit api p.storage id) (sym e) ∙ at)) [
              | inr m ↦ inr (inr m)
              | inl there ↦ elim (string_discrete c.id id) [
                | yes here ↦ inr (inl (ground (arith, get_commit-store api s c id)))
                | no other ↦ inl (ground (arith, get_commit-store api s c id))
              ]
            ]
      | inr (d, known) ↦
          let e = persist_known api same_value s c d cs known in
          elim (Bool-cases (same_value c d)) [
            | inr clash ↦ absurd (ground (arith, e, h, clash))
            | inl equal ↦
                let e' : run s (c ∷ cs) ≡ run s cs = ground arith in
                elim (run-origin s cs id x valid (ap (λ p. p.completed) (sym e') ∙ h)
                  (ap (λ p. get_commit api p.storage id) (sym e') ∙ at)) [
                    | inr m ↦ inr (inr m)
                    | inl there ↦ inl there
                  ]
          ]
    ]
