-- ===== src/Repo/Heads/Best.antt =====
-- repo/repo.ts: which commit `pickBestCommitForCurrentClient` and `headForKey` pick.
use Prim.Native.Nat.{Ordering}
use ovvio.Base.{
  ℕ, ◌<◌, Bool, true, false, ◌&&◌, Option, none, some, List, [], ◌∷◌, ◌≡◌, ◌≢◌, arith, same, All,
  Any, All-self, if◌then◌else◌, ◌⊎◌, inl, inr,
}
use ovvio.Base.Text.{JsString, string_discrete}
use ovvio.Collections.Search.Bounds.{All-mono}
use ovvio.Collections.Search.Sorting.{find_first-sort, find_first_cases}
use ovvio.Commit.{Records, Commit}
use ovvio.Repo.Order.{compare_commits_desc}
use ovvio.Repo.Order.Total.{compare_commits_desc-IsOrder}
use ovvio.Repo.Heads.{pick_from, pick_best_commit_for_current_client}

module _ (api : Records) (has_record : Commit api → Bool) (connection session : JsString) where
  -- A commit of this connection comes first, then one of this session.
  abbrev pub rank : Commit api → ℕ
  rank c =
      if same string_discrete c.connection_id connection
      then 2
      else if same string_discrete c.session session
      then 1
      else 0

  -- No commit with a record is preferred to `c`: each has a lower rank, or the same and is not newer.
  abbrev pub IsBest : Commit api → List (Commit api) → Type 0
  IsBest c commits =
      All
        (λ d.
          has_record d ≡ true
          → (rank d < rank c) ⊎ (rank d ≡ rank c) × (compare_commits_desc api c d ≢ Ordering.gt))
        commits

  All-both {κ μ ν} :
      (P : Commit api → Type κ) (Q : Commit api → Type μ) (R : Commit api → Type ν)
      (xs : List (Commit api))
      → ((x : Commit api) → P x → Q x → R x)
      → All P xs
      → All Q xs
      → All R xs
  All-both P Q R [] f h k = tt
  All-both P Q R (x ∷ xs) f h k = (f x h.0 k.0, All-both P Q R xs f h.1 k.1)

  module _ (commits : List (Commit api)) where
    abbrev pub best : Option (Commit api)
    best = pick_best_commit_for_current_client api has_record connection session commits

    abbrev own : Commit api → Bool
    own c = same string_discrete c.connection_id connection && has_record c

    abbrev mine : Commit api → Bool
    mine c = same string_discrete c.session session && has_record c

    -- Where a commit has a record, one is picked: it is one of the commits, it has a record, and none
    -- with a record is preferred to it. Where no commit has one, none is picked.
    pub pick_best-IsBest :
        (best ≡ none) × All (λ d. has_record d ≡ false) commits
        ⊎ ((c : Commit api) × (best ≡ some c)
            × Any (λ d. d ≡ c) commits
            × (has_record c ≡ true)
            × IsBest c commits)
    unfolding pick_best_commit_for_current_client pick_from
    pick_best-IsBest =
        let cmp = compare_commits_desc api in
        let order = compare_commits_desc-IsOrder api in
        elim (find_first_cases cmp own commits) [
          | inr (c, e, pass, mem) ↦ inr (
            c,
            ground arith,
            mem _ (All-self commits),
            ground arith,
            All-mono _ _ commits (λ d k h. ground arith)
                (find_first-sort cmp order own commits c e),
          )
          | inl (e, not_own) ↦ elim (find_first_cases cmp mine commits) [
            | inr (c, e', pass, mem) ↦ inr (
              c,
              ground arith,
              mem _ (All-self commits),
              ground arith,
              let not_own_c = mem (λ d. own d ≡ false) not_own in
                  All-both _ _ _ commits (λ d n k h. ground arith) not_own
                    (find_first-sort cmp order mine commits c e'),
            )
            | inl (e', not_mine) ↦ elim (find_first_cases cmp has_record commits) [
              | inr (c, e'', pass, mem) ↦ inr (
                c,
                ground arith,
                mem _ (All-self commits),
                pass,
                let not_own_c = mem (λ d. own d ≡ false) not_own in
                    let not_mine_c = mem (λ d. mine d ≡ false) not_mine in
                    All-both _ _ _ commits (λ d n k h. ground (arith, k.1 h)) not_own
                      (All-both _ _
                        (λ d.
                          (mine d ≡ false)
                          × (has_record d ≡ true → compare_commits_desc api c d ≢ Ordering.gt))
                        commits (λ d n k. (n, k)) not_mine
                        (find_first-sort cmp order has_record commits c e'')),
              )
              | inl (e'', unreadable) ↦ inl (ground arith, unreadable)
            ]
          ]
        ]
