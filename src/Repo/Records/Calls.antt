-- ===== src/Repo/Records/Calls.antt =====
-- repo/repo.ts: one call of the methods that read records, where the calls inside it answer what
-- `Readable` describes.
use ovvio.Base.{
  ℕ, suc, true, false, not, none, some, is_some, List, [], ◌∷◌, ◌≡◌, sym, subst, All, if◌then◌else◌,
  arith, Bool-cases, Option-cases, inl, inr,
}
use ovvio.Base.Maps
use ovvio.Base.Text.{JsString, string_discrete}
use ovvio.Commit.{Records, Commit, Contents, Edit, contents_is_record}
use ovvio.Repo.Storage.{RepoStorage}
use ovvio.Repo.Records.{
  Method, return, bind, mark, fits, has_commit, record_for_id, commit_is_corrupted,
  has_record_for_commit, first_good,
}
use ovvio.Repo.Records.Readable.{
  base_record, readable, is_corrupted, first_readable, value, IsStored, IsSound, IsOnRecord,
}
use ovvio.Repo.Records.Steps.{
  Returns, Returns-return, Returns-bind, Returns-if, corrupted-unreadable, mark-Returns,
  Contents-cases, value-full,
}

module _ (api : Records) (storage : RepoStorage api) where
  open api use {Record, Changes, patch, null_record}

  module _ (sound : IsSound api storage) (recur : Commit api → Method api Record)
      (full : (d : Commit api) (r : Record)
        → IsStored api storage d
        → d.contents ≡ Contents.full r
        → Returns api storage (recur d) r) where
    base_record-some :
        (id : JsString) (r : Record)
        → base_record api storage id ≡ some r
        → (b : Commit api) × (storage.get_commit id ≡ some b)
          × (b.contents ≡ Contents.full r)
          × IsStored api storage b
    base_record-some id r h = elim (Option-cases (storage.get_commit id)) [
      | inl absent ↦ absurd (ground arith)
      | inr (b, at) ↦ elim (Contents-cases api storage b.contents) [
        | inl (x, e) ↦
            let here : b.id ≡ id = sound.named id b at in
            (b, at, ground arith, subst (λ i. storage.get_commit i ≡ some b) (sym here) at)
        | inr (base, x, e) ↦ absurd (ground arith)
      ]
    ]

    pub record_for_id-Returns :
        (id : JsString) (r : Record)
        → base_record api storage id ≡ some r
        → Returns api storage (record_for_id api storage recur id) r
    unfolding record_for_id Returns
    record_for_id-Returns id r h s valid =
        let (b, at, e, stored) = base_record-some id r h in
        elim (Option-cases (Maps.get string_discrete id s.records)) [
          | inr (x, hit) ↦
              let here : b.id ≡ id = sound.named id b at in
              let cached : value api storage b ≡ some x =
                valid.records_true b x stored
                  (subst (λ i. Maps.get string_discrete i s.records ≡ some x) (sym here) hit) in
              let same_record : x ≡ r = ground (arith, value-full api storage b r e) in
              (s, ground arith, valid)
          | inl miss ↦ let (s', e', v) = full b r stored e s valid in (s', ground arith, v)
        ]

    pub base-is-full :
        (c : Commit api) (base : JsString) (edit : Edit Changes) (d : Commit api)
        → IsStored api storage c
        → c.contents ≡ Contents.delta base edit
        → storage.get_commit base ≡ some d
        → (r : Record) × (base_record api storage base ≡ some r)
    unfolding contents_is_record
    base-is-full c base edit d stored e at =
        let on : IsOnRecord api storage (Contents.delta base edit) =
          subst (IsOnRecord api storage) e (sound.on_record c.id c stored) in
        let is_full = on d at in
        elim (Contents-cases api storage d.contents) [
          | inl (r, e') ↦ (r, ground arith)
          | inr (b, x, e') ↦ absurd (ground arith)
        ]

    pub corrupted-Returns :
        (c : Commit api)
        → IsStored api storage c
        → Returns api storage
            (commit_is_corrupted api storage recur c)
            (is_corrupted api storage c.contents)
    unfolding commit_is_corrupted has_commit is_corrupted Returns
    corrupted-Returns c stored s valid = elim (Contents-cases api storage c.contents) [
      | inl (r, e) ↦ (s, ground arith, valid)
      | inr (base, edit, e) ↦ elim (Option-cases (Maps.get string_discrete c.id s.corrupted)) [
        | inr (b, hit) ↦ let known = valid.corrupted_true c b stored hit in (s, ground arith, valid)
        | inl miss ↦ elim (Option-cases (storage.get_commit base)) [
          | inl absent ↦
              let (s', e', v) = mark-Returns api storage c stored false (ground arith) s valid in
              (s', ground arith, v)
          | inr (d, at) ↦
              let (r, h) = base-is-full c base edit d stored e at in
              let (s', e', v) =
                Returns-bind api storage (record_for_id api storage recur base)
                  (λ x. mark api c.id (not (fits api x edit))) r (not (fits api r edit))
                  (record_for_id-Returns base r h)
                  (mark-Returns api storage c stored (not (fits api r edit)) (ground arith)) s
                  valid in
              (s', ground arith, v)
        ]
      ]
    ]

    has_record-full :
        (n : ℕ) (c : Commit api) (r : Record)
        → c.contents ≡ Contents.full r
        → Returns api storage (has_record_for_commit api storage recur (suc n) c) true
    unfolding has_record_for_commit Returns
    has_record-full n c r e s valid = (s, ground arith, valid)

    readable-not-corrupted :
        (c : Commit api) (base : JsString) (edit : Edit Changes) (r : Record)
        → c.contents ≡ Contents.delta base edit
        → base_record api storage base ≡ some r
        → not (is_corrupted api storage c.contents) ≡ is_some (readable api storage c.contents)
    unfolding is_corrupted readable
    readable-not-corrupted c base edit r e h = ground arith

    pub has_record-Returns :
        (n : ℕ) (c : Commit api)
        → IsStored api storage c
        → Returns api storage
            (has_record_for_commit api storage recur (suc (suc n)) c)
            (is_some (readable api storage c.contents))
    unfolding has_record_for_commit readable Returns
    has_record-Returns n c stored s valid = elim (Contents-cases api storage c.contents) [
      | inl (r, e) ↦ (s, ground arith, valid)
      | inr (base, edit, e) ↦ elim (Option-cases (storage.get_commit base)) [
        | inl absent ↦ (s, unfold bind in ground arith, valid)
        | inr (d, at) ↦
            let (r, h) = base-is-full c base edit d stored e at in
            let (b, at', e', stored') = base_record-some base r h in
            let (s', e'', v) =
              Returns-bind api storage (has_record_for_commit api storage recur (suc n) b)
                (λ x.
                  if x
                  then bind api (commit_is_corrupted api storage recur c)
                      (λ bad. return api (not bad))
                  else return api false)
                true (not (is_corrupted api storage c.contents)) (has_record-full n b r e')
                (Returns-bind api storage (commit_is_corrupted api storage recur c)
                  (λ bad. return api (not bad)) (is_corrupted api storage c.contents)
                  (not (is_corrupted api storage c.contents)) (corrupted-Returns c stored)
                  (Returns-return api storage _))
                s valid in
            (s', ground (arith, readable-not-corrupted c base edit r e h), v)
      ]
    ]

    pub first_good-Returns :
        (n : ℕ) (cs : List (Commit api))
        → All (IsStored api storage) cs
        → Returns api storage
            (first_good api storage recur (suc (suc n)) cs)
            (first_readable api storage cs)
    unfolding first_good first_readable
    first_good-Returns n [] h = Returns-return api storage none
    first_good-Returns n (c ∷ cs) h =
        let rest = first_good-Returns n cs h.1 in
        Returns-bind api storage (commit_is_corrupted api storage recur c) _
          (is_corrupted api storage c.contents) _ (corrupted-Returns c h.0)
          (elim (Bool-cases (is_corrupted api storage c.contents)) [
            | inl bad ↦ rw (bad, corrupted-unreadable api storage c.contents bad) rest
            | inr fine ↦ rw fine (
                Returns-bind api storage (has_record_for_commit api storage recur (suc (suc n)) c) _
                  (is_some (readable api storage c.contents)) _ (has_record-Returns n c h.0)
                  (Returns-if api storage (is_some (readable api storage c.contents)) _ _ _ _
                    (Returns-return api storage (some c)) rest))
          ])
