-- ===== src/Repo/MergeBase/Rounds.antt =====
-- repo/repo.ts: the loop of `_findLCAMergeBase` ends, since each round but the last reaches an id
-- that was not reached before.
use ovvio.Base.{
  ℕ, zero, suc, ◌+◌, ◌*◌, ◌≤◌, ◌<◌, Bool, true, false, Option, none, some, List, [], ◌∷◌, ◌≡◌, refl,
  sym, subst, arith, All, length, if◌then◌else◌, ◌⊎◌, inl, inr, Bool-cases, Option-cases,
}
use ovvio.Base.Sets
use ovvio.Base.Text.{JsString, string_discrete}
use ovvio.Commit.{Records, Commit}
use ovvio.Repo.Storage.{RepoStorage}
use ovvio.Repo.MergeBase.{
  has_id, set_of, Side, add_parents, expand_commit, expand_id, expand, common_base, search,
  find_lca_merge_base,
}
use ovvio.Repo.MergeBase.Ancestors.{expand_id_cases}

-- How many of the ids are not in the set.
missing : List JsString → List JsString → ℕ
missing [] s = 0
missing (u ∷ us) s = if has_id u s then missing us s else suc (missing us s)

missing-le-length : (us s : List JsString) → missing us s ≤ length us
unfolding missing
missing-le-length [] s = omega arith
missing-le-length (u ∷ us) s = ground (arith, missing-le-length us s)

missing-add_le :
    (us s : List JsString) (p : JsString) → missing us (Sets.add string_discrete p s) ≤ missing us s
unfolding missing
missing-add_le [] s p = omega arith
missing-add_le (u ∷ us) s p =
    ground (arith, missing-add_le us s p, Sets.has-add string_discrete p u s)

missing-add :
    (us s : List JsString) (p : JsString)
    → has_id p us ≡ true
    → has_id p s ≡ false
    → missing us (Sets.add string_discrete p s) < missing us s
unfolding missing Sets.has
missing-add [] s p h n = absurd (cc)
missing-add (u ∷ us) s p h n = elim (string_discrete u p) [
  | yes e ↦
      let n' = subst (λ x. has_id x s ≡ false) (sym e) n in
      let e' = sym e in ground (arith, missing-add_le us s p, Sets.has-add string_discrete p u s)
  | no d ↦ ground (arith, missing-add us s p, Sets.has-add string_discrete p u s)
]

module _ (api : Records) (storage : RepoStorage api) (us : List JsString) where
  -- Some steps of a side: if they report growth, then fewer ids are missing.
  record Shrinks (s s' : Side api storage) : Type 0 where
    le : missing us s'.ids ≤ missing us s.ids
    grown : (s'.updated ≡ s.updated) ⊎ (missing us s'.ids < missing us s.ids)

  Shrinks-refl : (s : Side api storage) → Shrinks s s
  Shrinks-refl s = record { le = omega arith; grown = inl refl }

  Shrinks-trans : (s t u : Side api storage) → Shrinks s t → Shrinks t u → Shrinks s u
  Shrinks-trans s t u h k = record {
    le = omega (arith, h.le, k.le);
    grown = ground (arith, h.grown, k.grown, h.le, k.le);
  }

  add_parents-Shrinks :
      (s : Side api storage) (ps : List JsString)
      → All (λ p. has_id p us ≡ true) ps
      → Shrinks s (add_parents api storage s ps)
  unfolding add_parents
  add_parents-Shrinks s [] h = Shrinks-refl s
  add_parents-Shrinks s (p ∷ ps) h = elim (Bool-cases (has_id p s.ids)) [
    | inl known ↦ rw (known, add_parents) (add_parents-Shrinks s ps h.1)
    | inr new ↦
        let t : Side api storage = record s {
          ids = Sets.add string_discrete p s.ids;
          updated = true;
        } in
        let less = missing-add us s.ids p h.0 new in
        rw (new, add_parents)
          (Shrinks-trans s t _ (record { le = omega arith; grown = inr less })
            (add_parents-Shrinks t ps h.1))
  ]

  module _
      (closed : (id : JsString) (c : Commit api)
        → storage.get_commit id ≡ some c
        → All (λ p. has_id p us ≡ true) c.parents) where
    expand_commit-Shrinks :
        (s : Side api storage) (ps : List JsString)
        → All (λ p. has_id p us ≡ true) ps
        → Shrinks s (expand_commit api storage s ps)
    unfolding expand_commit
    expand_commit-Shrinks s [] h = record { le = omega arith; grown = inl refl }
    expand_commit-Shrinks s (p ∷ ps) h = add_parents-Shrinks s (p ∷ ps) h

    expand_id-Shrinks :
        (s : Side api storage) (id : JsString) → Shrinks s (expand_id api storage s id)
    expand_id-Shrinks s id = elim (expand_id_cases api storage s id) [
      | inl e ↦ subst (Shrinks s) (sym e) (Shrinks-refl s)
      | inr (d, at, e) ↦
          subst (Shrinks s) (sym e) (expand_commit-Shrinks s d.parents (closed id d at))
    ]

    expand-Shrinks :
        (s : Side api storage) (ids : List JsString) → Shrinks s (expand api storage s ids)
    unfolding expand
    expand-Shrinks s [] = Shrinks-refl s
    expand-Shrinks s (id ∷ ids) =
        let t = expand_id api storage s id in
        Shrinks-trans s t _ (expand_id-Shrinks s id) (expand-Shrinks t ids)

    module _ (has_record : Commit api → Bool) where
      search-total :
          (fuel : ℕ) (p1 p2 : List JsString) (root : Bool)
          → missing us p1 + missing us p2 < fuel
          → (r : Option (Commit api) × Bool) × (search api storage has_record fuel p1 p2 root
              ≡ some r)
      unfolding search
      search-total zero p1 p2 root h = absurd (omega arith)
      search-total (suc fuel) p1 p2 root h =
          let t1 : Side api storage = record { ids = p1; updated = false; root = root } in
          let s1 = expand api storage t1 p1 in
          let t2 : Side api storage = record { ids = p2; updated = s1.updated; root = s1.root } in
          let s2 = expand api storage t2 p2 in
          let k1 = expand-Shrinks t1 p1 in
          let k2 = expand-Shrinks t2 p2 in
          elim (Option-cases (common_base api storage has_record p1 p2)) [
            | inr (b, found) ↦ ((some b, root), ground arith)
            | inl nothing ↦ elim (Bool-cases s2.updated) [
              | inr done ↦ ((none, s2.root), ground arith)
              | inl more ↦
                  let less : missing us s1.ids + missing us s2.ids < missing us p1 + missing us p2 =
                    ground (arith, k1.le, k2.le, k1.grown, k2.grown, more) in
                  let (r, e) = search-total fuel s1.ids s2.ids s2.root (omega arith) in
                  (r, ground arith)
            ]
          ]

      -- `_findLCAMergeBase` ends: as many rounds are enough as twice the number of the ids that
      -- stand among the parents of stored commits, and one more.
      pub find_lca-total :
          (fuel : ℕ) (c1 c2 : Commit api)
          → 2 * length us < fuel
          → (r : Option (Commit api) × Bool) × (find_lca_merge_base api storage has_record fuel c1
                c2
              ≡ some r)
      unfolding find_lca_merge_base
      find_lca-total fuel c1 c2 h =
          let p1 = set_of [] c1.parents in
          let p2 = set_of [] c2.parents in
          let (r, e) =
            search-total fuel p1 p2 false
              (omega (arith, missing-le-length us p1, missing-le-length us p2)) in
          elim (Option-cases (find_lca_merge_base api storage has_record fuel c1 c2)) [
            | inl nothing ↦ absurd (ground arith)
            | inr found ↦ found
          ]
