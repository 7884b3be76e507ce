-- ===== src/Repo/Records/Depth.antt =====
-- repo/repo.ts: the depth of the calls of `recordForCommit`, for a full commit, a readable one and
-- the substitute for a corrupted one.
use ovvio.Base.{
  ℕ, suc, true, Option, some, List, [], ◌∷◌, ◌≡◌, sym, ap, ◌∙◌, subst, All, if◌then◌else◌, arith,
  Option-cases, inl, inr,
}
use ovvio.Base.Maps
use ovvio.Base.Sort.{All-sort}
use ovvio.Base.Text.{JsString, string_discrete}
use ovvio.Commit.{Records, Commit, Contents, Edit}
use ovvio.Repo.Order.{compare_commits_desc}
use ovvio.Repo.Storage.{RepoStorage}
use ovvio.Repo.Records.{
  Method, return, bind, remember, fits, record_for_id, fallback_record,
  find_latest_non_corrupted_commit_for_key, record_for_commit,
}
use ovvio.Repo.Records.Readable.{
  base_record, readable, first_readable, latest_readable, substitute, value, IsStored, IsSound,
}
use ovvio.Repo.Records.Steps.{
  Returns, Returns-return, Returns-bind, remember-Returns, Contents-cases, value-full,
}
use ovvio.Repo.Records.Calls.{record_for_id-Returns, first_good-Returns}

module _ (api : Records) (storage : RepoStorage api) (sound : IsSound api storage) where
  open api use {Record, Changes, patch, null_record}

  abbrev pub record_for : ℕ → Commit api → Method api Record
  record_for n c = record_for_commit api storage n c

  pub full-Returns :
      (n : ℕ) (d : Commit api) (r : Record)
      → IsStored api storage d
      → d.contents ≡ Contents.full r
      → Returns api storage (record_for (suc n) d) r
  unfolding record_for_commit Returns
  full-Returns n d r stored e s valid =
      elim (Option-cases (Maps.get string_discrete d.id s.records)) [
        | inr (x, hit) ↦
            let cached = valid.records_true d x stored hit in
            (s, ground (arith, value-full api storage d r e), valid)
        | inl miss ↦
            let (s', e', v) =
              remember-Returns api storage d stored r (value-full api storage d r e) s valid in
            (s', ground arith, v)
      ]

  latest-Returns :
      (k n : ℕ) (key : Option JsString)
      → Returns api storage
          (find_latest_non_corrupted_commit_for_key api storage
            (record_for (suc k))
            (suc (suc n))
            key)
          (latest_readable api storage key)
  unfolding find_latest_non_corrupted_commit_for_key latest_readable
  latest-Returns k n key =
      first_good-Returns api storage sound (record_for (suc k)) (full-Returns k) n _ (
        All-sort (compare_commits_desc api) (IsStored api storage) (storage.commits_for_key key)
          (sound.listed key))

  -- What `recordForCommit` does behind the record of the base.
  abbrev pub patched : ℕ → Commit api → Edit Changes → Record → Method api Record
  patched n c edit r =
      if fits api r edit
      then return api (patch r edit.changes)
      else fallback_record api storage (record_for (suc n)) (suc n) c.key

  pub delta-Returns :
      (n : ℕ) (c : Commit api) (base : JsString) (edit : Edit Changes) (b x : Record)
      → IsStored api storage c
      → c.contents ≡ Contents.delta base edit
      → base_record api storage base ≡ some b
      → value api storage c ≡ some x
      → Returns api storage (patched n c edit b) x
      → Returns api storage (record_for (suc (suc n)) c) x
  unfolding record_for_commit Returns
  delta-Returns n c base edit b x stored e at val next s valid =
      elim (Option-cases (Maps.get string_discrete c.id s.records)) [
        | inr (y, hit) ↦ let cached = valid.records_true c y stored hit in (s, ground arith, valid)
        | inl miss ↦
            let (s', e', v) =
              Returns-bind api storage (record_for_id api storage (record_for (suc n)) base)
                (λ r. bind api (patched n c edit r) (remember api c.id)) b x
                (record_for_id-Returns api storage sound (record_for (suc n)) (full-Returns n) base
                  b at)
                (Returns-bind api storage (patched n c edit b) (remember api c.id) x x next
                  (remember-Returns api storage c stored x val))
                s valid in
            (s', ground arith, v)
      ]

  -- A readable commit, at the depth of two.
  pub good-Returns :
      (n : ℕ) (c : Commit api) (r : Record)
      → IsStored api storage c
      → readable api storage c.contents ≡ some r
      → Returns api storage (record_for (suc (suc n)) c) r
  unfolding readable value
  good-Returns n c r stored good = elim (Contents-cases api storage c.contents) [
    | inl (x, e) ↦ full-Returns (suc n) c r stored (ground arith)
    | inr (base, edit, e) ↦ elim (Option-cases (base_record api storage base)) [
      | inl absent ↦ absurd (ground arith)
      | inr (b, at) ↦
          let fit : fits api b edit ≡ true = ground arith in
          let made : patch b edit.changes ≡ r = ground arith in
          delta-Returns n c base edit b r stored e at (ground arith) (
            rw fit (
              subst (Returns api storage (return api (patch b edit.changes))) made
                (Returns-return api storage (patch b edit.changes))))
    ]
  ]

  first_readable-some :
      (cs : List (Commit api)) (d : Commit api)
      → All (IsStored api storage) cs
      → first_readable api storage cs ≡ some d
      → IsStored api storage d × ((r : Record) × (readable api storage d.contents ≡ some r))
  unfolding first_readable
  first_readable-some [] d h e = absurd (cc)
  first_readable-some (c ∷ cs) d h e = elim (Option-cases (readable api storage c.contents)) [
    | inl bad ↦ first_readable-some cs d h.1 (ground arith)
    | inr (r, good) ↦
        let here : c ≡ d = ground arith in
        (
          subst (IsStored api storage) here h.0,
          (r, ap (λ x. readable api storage x.contents) (sym here) ∙ good),
        )
  ]

  pub fallback-Returns :
      (n : ℕ) (key : Option JsString)
      → Returns api storage
          (fallback_record api storage (record_for (suc (suc n))) (suc (suc n)) key)
          (substitute api storage key)
  unfolding fallback_record substitute
  fallback-Returns n key =
      Returns-bind api storage
        (find_latest_non_corrupted_commit_for_key api storage (record_for (suc (suc n)))
          (suc (suc n)) key)
        _ (latest_readable api storage key) (substitute api storage key)
        (latest-Returns (suc n) n key)
        (elim (Option-cases (latest_readable api storage key)) [
          | inl nothing ↦
              let made : substitute api storage key ≡ null_record = ground arith in
              rw (nothing, made) (Returns-return api storage null_record)
          | inr (d, e) ↦
              let (stored, (r, good)) =
                first_readable-some _ d
                  (All-sort (compare_commits_desc api) (IsStored api storage)
                    (storage.commits_for_key key) (sound.listed key))
                  (unfold latest_readable in e) in
              let made : substitute api storage key ≡ r = ground arith in
              rw (e, made) (good-Returns n d r stored good)
        ])
