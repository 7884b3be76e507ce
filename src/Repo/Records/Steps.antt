-- ===== src/Repo/Records/Steps.antt =====
-- repo/repo.ts: methods that answer a value from valid caches, and leave the caches valid.
use ovvio.Base.{
  Bool, true, false, some, is_some, ◌≡◌, refl, sym, ap, ◌∙◌, if◌then◌else◌, arith, ◌⊎◌, inl, inr,
}
use ovvio.Base.Maps
use ovvio.Base.Text.{JsString, string_discrete}
use ovvio.Commit.{Records, Commit, Contents, Edit}
use ovvio.Repo.Storage.{RepoStorage}
use ovvio.Repo.Records.{ok, Caches, Method, return, bind, mark, remember}
use ovvio.Repo.Records.Readable.{readable, is_corrupted, value, IsStored, IsValid}

module _ (api : Records) (storage : RepoStorage api) where
  open api use {Record, Changes, patch, null_record}

  -- From valid caches the method answers `a`, and leaves them valid.
  unfoldable pub Returns {ℓ} : {A : Type ℓ} → Method api A → A → Type ℓ
  Returns m a =
      (s : Caches api)
      → IsValid api storage s
      → (s' : Caches api) × (m s ≡ (s', ok a)) × IsValid api storage s'

  pub Returns-return {ℓ} : {A : Type ℓ} → (a : A) → Returns (return api a) a
  unfolding Returns
  Returns-return a s valid = (s, refl, valid)

  pub Returns-bind {ℓ κ} :
      {A : Type ℓ}
      → {B : Type κ} → (m : Method api A) (f : A → Method api B) (a : A) (b : B) → Returns m a
      → Returns (f a) b
      → Returns (bind api m f) b
  unfolding Returns bind
  Returns-bind m f a b first second s valid =
      let (s', e, v) = first s valid in let (s'', e', v') = second s' v in (s'', ground (arith), v')

  pub Returns-if {ℓ} :
      {A : Type ℓ}
      → (b : Bool) (m k : Method api A) (x y : A) → Returns m x
      → Returns k y
      → Returns (if b then m else k) (if b then x else y)
  Returns-if true m k x y h h' = h
  Returns-if false m k x y h h' = h'

  pub corrupted-unreadable :
      (x : Contents Record Changes)
      → is_corrupted api storage x ≡ true
      → is_some (readable api storage x) ≡ false
  unfolding is_corrupted readable
  corrupted-unreadable (Contents.full r) h = absurd (cc)
  corrupted-unreadable (Contents.delta base e) h = ground arith

  module _ (c : Commit api) (stored : IsStored api storage c) where
    unique : (d : Commit api) → IsStored api storage d → d.id ≡ c.id → d ≡ c
    unique d at e = ground arith

    pub mark-Returns :
        (b : Bool) → b ≡ is_corrupted api storage c.contents → Returns (mark api c.id b) b
    unfolding Returns mark
    mark-Returns b e s valid = (
      record s { corrupted = Maps.put string_discrete c.id b s.corrupted },
      refl,
      record {
        corrupted_true = λ d x at h.
            let put = Maps.get-put string_discrete c.id d.id b s.corrupted in
            elim (string_discrete c.id d.id) [
              | yes same ↦
                  let stored_mark : x ≡ b = ground (arith, put) in
                  stored_mark
                  ∙ e
                  ∙ ap (λ y. is_corrupted api storage y.contents) (sym (unique d at (sym same)))
              | no other ↦ valid.corrupted_true d x at (ground (arith, put))
            ];
        records_true = valid.records_true;
      },
    )

    pub remember-Returns :
        (r : Record) → value api storage c ≡ some r → Returns (remember api c.id r) r
    unfolding Returns remember
    remember-Returns r e s valid = (
      record s { records = Maps.put string_discrete c.id r s.records },
      refl,
      record {
        corrupted_true = valid.corrupted_true;
        records_true = λ d x at h.
            let put = Maps.get-put string_discrete c.id d.id r s.records in
            elim (string_discrete c.id d.id) [
              | yes same ↦
                  let stored_record : some r ≡ some x = ground (arith, put) in
                  ap (value api storage) (unique d at (sym same)) ∙ e ∙ stored_record
              | no other ↦ valid.records_true d x at (ground (arith, put))
            ];
      },
    )

  pub Contents-cases :
      (x : Contents Record Changes)
      → ((r : Record) × (x ≡ Contents.full r))
        ⊎ ((base : JsString) × (e : Edit Changes) × (x ≡ Contents.delta base e))
  Contents-cases (Contents.full r) = inl (r, refl)
  Contents-cases (Contents.delta base e) = inr (base, e, refl)

  pub value-full :
      (c : Commit api) (r : Record) → c.contents ≡ Contents.full r → value api storage c ≡ some r
  unfolding value readable
  value-full c r e = ground arith
