-- ===== src/Engine/Rename/Take.antt =====
-- The inner search of the rename detector, and one round of its outer loop.
use cloud_sync_lib.Base.{
  ℕ, zero, suc, ◌+◌, ◌≡◌, refl, ap, ◌∙◌, ◌⊎◌, inl, inr, true, false, none, some, List, [], ◌∷◌,
  ◌++◌, map, arith, Bool-cases,
}
use cloud_sync_lib.Base.Lists.{All}
use cloud_sync_lib.Base.Count.{total}
use cloud_sync_lib.Base.Text.{Text}
use cloud_sync_lib.Engine.Rename.{
  CandidateItem, DetectedMove, Detection, matches, matched_idx, remove_at, take_match, detect_one,
  detect_loop, keep_head,
}

abbrev pub paths : List CandidateItem → List Text
paths = map λ c. c.rel_path

abbrev pub Items : Type 0
Items = List CandidateItem

-- `rest` is `adds` without one occurrence of `a`.
pub record Splits (adds : Items) (a : CandidateItem) (rest : Items) : Type 1 where
  pub kept : (P : CandidateItem → Type 0) → All P adds → P a × All P rest
  pub counted : (f : Text → ℕ) → total f (paths adds) ≡ total f (paths (a ∷ rest))

Splits-head : (a : CandidateItem) (adds : List CandidateItem) → Splits (a ∷ adds) a adds
Splits-head a adds = record { kept = λ P h. h; counted = λ p. refl }

Splits-tail :
    (b : CandidateItem) (adds : List CandidateItem) {a : CandidateItem} {rest : List CandidateItem}
    → Splits adds a rest
    → Splits (b ∷ adds) a (b ∷ rest)
Splits-tail b adds s = record {
  kept = λ P h. ((s.kept P h.1).0, (h.0, (s.kept P h.1).1));
  counted = λ f. omega (arith, s.counted f);
}

abbrev Missing : CandidateItem → ℕ → List CandidateItem → Type 0
Missing del n adds = (matched_idx del n adds ≡ none) × All (λ a. matches del a ≡ false) adds

abbrev Found : CandidateItem → ℕ → List CandidateItem → Type 1
Found del n adds =
    (idx : ℕ) × (a : CandidateItem) × (rest : List CandidateItem) × (matched_idx del n adds
      ≡ some (idx + n))
    × (remove_at idx adds ≡ some (a, rest))
    × (matches del a ≡ true)
    × Splits adds a rest

-- The search fails and no addition matches, or its index removes one that does.
search_cases :
    (del : CandidateItem) (n : ℕ) (adds : List CandidateItem)
    → Missing del n adds ⊎ Found del n adds
unfolding matched_idx remove_at
search_cases del n [] = inl (refl, tt)
search_cases del n (b ∷ adds) = elim (Bool-cases (matches del b)) [
  | inl hit ↦ inr (zero, b, adds, rw hit (ap some (omega arith)), refl, hit, Splits-head b adds)
  | inr miss ↦ elim (search_cases del (n + 1) adds) [
    | inl (e, none_match) ↦ inl (rw miss e, (miss, none_match))
    | inr (idx, a, rest, e, r, m, s) ↦ inr (
      suc idx,
      a,
      b ∷ rest,
      rw miss (e ∙ ap some (omega arith)),
      ap (keep_head b) r,
      m,
      Splits-tail b adds s,
    )
  ]
]

some-add_zero : (n : ℕ) → some (n + 0) ≡ some n
some-add_zero n = ground arith

abbrev pub move_of : CandidateItem → CandidateItem → DetectedMove
move_of del a = record { source = del.rel_path; target = a.rel_path; size = del.size }

-- What one deletion does: it is left over, or it is moved to an addition that matches.
pub data Round (del : CandidateItem) (d : Detection) (d' : Detection) : Type 1 where
  leave :
      All (λ a. matches del a ≡ false) d.unmatched_additions
      → d' ≡ record d { unmatched_deletions = d.unmatched_deletions ++ del ∷ [] }
      → Round del d d'
  move :
      (a : CandidateItem) (rest : List CandidateItem)
      → matches del a ≡ true
      → Splits d.unmatched_additions a rest
      → d' ≡ record d { moves = d.moves ++ move_of del a ∷ []; unmatched_additions = rest }
      → Round del d d'

pub detect_one-Round :
    (del : CandidateItem) (d : Detection)
    → (d' : Detection) × (detect_one del d ≡ some d') × Round del d d'
unfolding detect_one
detect_one-Round del d = elim (search_cases del 0 d.unmatched_additions) [
  | inl (e, none_match) ↦ (_, rw (e, detect_one), leave none_match refl)
  | inr (idx, a, rest, e, r, m, s) ↦ (
    _,
    rw (e ∙ some-add_zero idx, detect_one) (ap (λ o. take_match del o d) r),
    move a rest m s refl,
  )
]

-- An invariant that every round keeps holds at the end, and there is an end.
pub detect_loop_induction {ℓ} :
    (P : List CandidateItem → Detection → Type ℓ)
    → ((del : CandidateItem) (dels : List CandidateItem) (d d' : Detection)
        → Round del d d'
        → P (del ∷ dels) d
        → P dels d')
    → (dels : List CandidateItem) (d : Detection) → P dels d
    → (d' : Detection) × (detect_loop dels d ≡ some d') × P [] d'
unfolding detect_loop
detect_loop_induction P step [] d h = (d, refl, h)
detect_loop_induction P step (del ∷ dels) d h =
    let (d1, e, r) = detect_one-Round del d in
    let (d2, e2, h2) = detect_loop_induction P step dels d1 (step del dels d d1 r h) in
    (d2, rw e e2, h2)
