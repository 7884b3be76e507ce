-- ===== src/Repo/MergeBase.antt =====
-- repo/repo.ts: the base of a merge (`_findLCAMergeBase`, `findMergeBase`). As in Heads, the
-- answers of `hasRecordForCommit` and the schemes of `recordForCommit` are parameters.
pub mod Ancestors
pub mod Lca
pub mod Rounds
pub mod Included
use ovvio.Base.{
  ℕ, zero, suc, ◌+◌, Bool, true, false, not, ◌&&◌, ◌||◌, Option, none, some, List, [], ◌∷◌, ◌++◌,
  same, ltb, filter, find_first, if◌then◌else◌,
}
use ovvio.Base.Sets
use ovvio.Base.Sort.{sort}
use ovvio.Base.Text.{JsString, string_discrete, key_discrete}
use ovvio.Commit.{
  Records, Commit, Scheme, null_scheme, is_null_scheme, contents_checksum, Namespace,
}
use ovvio.Authorizer.{namespace_discrete}
use ovvio.Repo.Order.{compare_commits_desc}
use ovvio.Repo.Storage.{RepoStorage}

abbrev pub has_id : JsString → List JsString → Bool
has_id = Sets.has string_discrete

-- `new Set(ids)`
unfoldable pub set_of : List JsString → List JsString → List JsString
set_of s [] = s
set_of s (id ∷ ids) = set_of (Sets.add string_discrete id s) ids

-- `SetUtils.intersection`
unfoldable pub intersection : List JsString → List JsString → List JsString
intersection s1 s2 = filter (λ v. has_id v s2) s1

module _ (api : Records) (storage : RepoStorage api) where
  -- One side of the search: the ids that it has reached, whether it grew, and whether a commit
  -- without parents was met.
  pub record Side : Type 0 where
    pub ids : List JsString
    pub updated : Bool
    pub root : Bool

  -- The inner loop, over the parents of a commit.
  unfoldable pub add_parents : Side → List JsString → Side
  add_parents s [] = s
  add_parents s (p ∷ ps) =
      add_parents
        (if has_id p s.ids
          then s
          else record s { ids = Sets.add string_discrete p s.ids; updated = true })
        ps

  -- The step for a commit with the given parents.
  unfoldable pub expand_commit : Side → List JsString → Side
  unfolding add_parents
  expand_commit s [] = record s { root = true }
  expand_commit s (p ∷ ps) = add_parents s (p ∷ ps)

  -- The step for one id of the snapshot `Array.from(parents)`.
  unfoldable pub expand_id : Side → JsString → Side
  unfolding expand_commit
  expand_id s id = elim (storage.get_commit id) [ none ↦ s | some c ↦ expand_commit s c.parents ]

  unfoldable pub expand : Side → List JsString → Side
  unfolding expand_id
  expand s [] = s
  expand s (id ∷ ids) = expand (expand_id s id) ids

  -- The commits of the ids that are there.
  unfoldable pub known_commits : List JsString → List (Commit api)
  known_commits [] = []
  known_commits (id ∷ ids) = elim (storage.get_commit id) [
    | none ↦ known_commits ids
    | some c ↦ c ∷ known_commits ids
  ]

  module _ (has_record : Commit api → Bool) where
    -- The newest common id of a commit with a record.
    unfoldable pub common_base : List JsString → List JsString → Option (Commit api)
    unfolding intersection known_commits
    common_base p1 p2 =
        find_first has_record (sort (compare_commits_desc api) (known_commits (intersection p1 p2)))

    -- The loop. The outer `none` is fuel that ran out.
    unfoldable pub search :
        ℕ → List JsString → List JsString → Bool → Option (Option (Commit api) × Bool)
    unfolding common_base expand
    search zero p1 p2 root = none
    search (suc fuel) p1 p2 root = elim (common_base p1 p2) [
      | some base ↦ some (some base, root)
      | none ↦
          let s1 = expand (record { ids = p1; updated = false; root = root }) p1 in
          let s2 = expand (record { ids = p2; updated = s1.updated; root = s1.root }) p2 in
          elim s2.updated [
            | true ↦ search fuel s1.ids s2.ids s2.root
            | false ↦ some (none, s2.root)
          ]
    ]

    -- `_findLCAMergeBase`
    unfoldable pub find_lca_merge_base :
        ℕ → Commit api → Commit api → Option (Option (Commit api) × Bool)
    unfolding search set_of
    find_lca_merge_base fuel c1 c2 =
        let loop = search fuel (set_of [] c1.parents) (set_of [] c2.parents) false in
        elim c1.parents [
          | [] ↦ some (none, true)
          | _ ∷ _ ↦ elim c2.parents [
            | [] ↦ some (none, true)
            | _ ∷ _ ↦
                if not (same key_discrete c1.key c2.key)
                then some (none, false)
                else if same string_discrete (contents_checksum api c1) (contents_checksum api c2)
                then some (some c1, false)
                else if has_id c2.id c1.parents
                then some (some c2, false)
                else if has_id c1.id c2.parents
                then some (some c1, false)
                else loop
          ]
        ]

    -- The result of `findMergeBase`: the commits to merge, their base and scheme, and whether a
    -- root was met.
    pub record MergeBase : Type 0 where
      pub commits : List (Commit api)
      pub base : Option (Commit api)
      pub scheme : Scheme
      pub root : Bool

    module _ (scheme_of : Commit api → Scheme) (fuel : ℕ) where
      -- The commit joins the merge, with the base that the search found.
      unfoldable pub join : MergeBase → Commit api → Commit api → Bool → Option MergeBase
      join m c base root =
          let s = scheme_of c in
          if is_null_scheme m.scheme || same namespace_discrete m.scheme.namespace s.namespace
          then some (record {
            commits = m.commits ++ c ∷ [];
            base = some base;
            scheme = if ltb m.scheme.version s.version then s else m.scheme;
            root = m.root || root;
          })
          else none

      -- The body of the loop. `none` is the failed assertion, or fuel that ran out.
      unfoldable pub consider : MergeBase → Commit api → Option MergeBase
      unfolding join find_lca_merge_base
      consider m c = if not (has_record c) then some m else elim m.base [
        | none ↦
            some (record m { commits = m.commits ++ c ∷ []; base = some c; scheme = scheme_of c })
        | some base ↦ elim (find_lca_merge_base fuel base c) [
          | none ↦ none
          | some (none, root) ↦ some (record m { root = m.root || root })
          | some (some new_base, root) ↦ join m c new_base root
        ]
      ]

      unfoldable pub consider_all : MergeBase → List (Commit api) → Option MergeBase
      unfolding consider
      consider_all m [] = some m
      consider_all m (c ∷ cs) = elim (consider m c) [ none ↦ none | some m' ↦ consider_all m' cs ]

      unfoldable pub find_merge_base : List (Commit api) → Option MergeBase
      unfolding consider_all
      find_merge_base commits =
          consider_all (record { commits = []; base = none; scheme = null_scheme; root = false })
            commits
