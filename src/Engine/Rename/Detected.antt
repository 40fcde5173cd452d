-- ===== src/Engine/Rename/Detected.antt =====
-- What `detect_moves` of crates/cloud_sync_daemon/src/engine/rename_detector.rs returns.
use mathlib.Core.Path.{subst}
use cloud_sync_lib.Base.{
  ℕ, Option, Bool, none, sym, ap, inl, inr, ◌+◌, ◌≡◌, refl, true, false, ◌⊎◌, some, List, [], ◌∷◌,
  ◌++◌, map, ◌||◌, ◌<◌, arith,
}
use cloud_sync_lib.Base.Lists.{All, All-append, All-mono, In, All-In_self}
use cloud_sync_lib.Base.Count.{hit, total, total-append, SameItems}
use cloud_sync_lib.Base.Text.{text_eq_iff, Text, file_name}
use mathlib.Core.List.{map-append}
use cloud_sync_lib.Engine.Rename.{
  filename_matches, same_some, checksum_matches, CandidateItem, DetectedMove, Detection, matches,
  detect_moves,
}
use cloud_sync_lib.Engine.Rename.Take.{
  Items, paths, move_of, Round, leave, move, detect_loop_induction,
}

or-cases : (a b : Bool) → (a || b) ≡ true → (a ≡ true) ⊎ (b ≡ true)
or-cases a b h = ground arith

abbrev pub sources : List DetectedMove → List Text
sources = map λ m. m.source

abbrev pub targets : List DetectedMove → List Text
targets = map λ m. m.target

-- No item of the one list matches an item of the other.
abbrev pub Apart : Items → Items → Type 0
Apart dels adds = All (λ del. All (λ a. matches del a ≡ false) adds) dels

-- The move is of a given deletion to a given addition, which match.
pub data IsJustified (deletions additions : Items) (m : DetectedMove) : Type 0 where
  justified :
      (del a : CandidateItem)
      → In del deletions
      → In a additions
      → matches del a ≡ true
      → m ≡ move_of del a
      → IsJustified deletions additions m

-- What holds between two rounds, with the deletions `dels` still to come.
pub record Inv (deletions additions dels : Items) (d : Detection) : Type 0 where
  pub deleted :
      (f : Text → ℕ)
      → total f (sources d.moves) + total f (paths d.unmatched_deletions) + total f (paths dels)
        ≡ total f (paths deletions)
  pub added :
      (f : Text → ℕ)
      → total f (targets d.moves) + total f (paths d.unmatched_additions)
        ≡ total f (paths additions)
  pub moved : All (IsJustified deletions additions) d.moves
  pub apart : Apart d.unmatched_deletions d.unmatched_additions
  pub dels_given : All (λ x. In x deletions) dels
  pub adds_given : All (λ x. In x additions) d.unmatched_additions
  pub left_given : All (λ x. In x deletions) d.unmatched_deletions

module _ (deletions additions : Items) where
  leave-Inv :
      (del : CandidateItem) (dels : Items) (d : Detection)
      → All (λ a. matches del a ≡ false) d.unmatched_additions
      → Inv deletions additions (del ∷ dels) d
      → Inv deletions additions dels
          (record d { unmatched_deletions = d.unmatched_deletions ++ del ∷ [] })
  leave-Inv del dels d none_match v = record {
    deleted = λ f. rw (map-append, total-append f) (omega (arith, v.deleted f));
    added = v.added;
    moved = v.moved;
    apart = All-append _ d.unmatched_deletions (del ∷ []) v.apart (none_match, tt);
    dels_given = v.dels_given.1;
    adds_given = v.adds_given;
    left_given = All-append _ d.unmatched_deletions (del ∷ []) v.left_given (v.dels_given.0, tt);
  }

  step-Inv :
      (del : CandidateItem) (dels : Items) (d d' : Detection)
      → Round del d d'
      → Inv deletions additions (del ∷ dels) d
      → Inv deletions additions dels d'
  step-Inv del dels d d' (leave none_match e) v = rw e (leave-Inv del dels d none_match v)
  step-Inv del dels d d' (move a rest m s e) v = rw e (record {
    deleted = λ f. rw (map-append, total-append f) (omega (arith, v.deleted f));
    added = λ f. rw (map-append, total-append f) (omega (arith, v.added f, s.counted f));
    moved =
        All-append _ d.moves (move_of del a ∷ []) v.moved
          (justified del a v.dels_given.0 (s.kept _ v.adds_given).0 m refl, tt);
    apart = All-mono _ _ d.unmatched_deletions (λ x h. (s.kept _ h).1) v.apart;
    dels_given = v.dels_given.1;
    adds_given = (s.kept _ v.adds_given).1;
    left_given = v.left_given;
  })

  start-Inv :
      Inv deletions additions deletions
        (record { moves = []; unmatched_deletions = []; unmatched_additions = additions })
  start-Inv = record {
    deleted = λ f. omega arith;
    added = λ f. omega arith;
    moved = tt;
    apart = tt;
    dels_given = All-In_self deletions;
    adds_given = All-In_self additions;
    left_given = tt;
  }

  pub detect_moves-Inv :
      (d : Detection) × (detect_moves deletions additions ≡ some d) × Inv deletions additions [] d
  unfolding detect_moves
  detect_moves-Inv =
      detect_loop_induction (λ dels d. Inv deletions additions dels d) step-Inv deletions _
        start-Inv

  -- The detector returns on every input, `Vec::remove` never being out of range. Its deletions
  -- are, as a multiset of paths, the sources of its moves and the deletions it hands back; its
  -- additions are the targets and the additions it hands back. So no path is lost or used twice.
  pub detect_moves_conserves :
      (d : Detection) × (detect_moves deletions additions ≡ some d)
      × SameItems (sources d.moves ++ paths d.unmatched_deletions) (paths deletions)
      × SameItems (targets d.moves ++ paths d.unmatched_additions) (paths additions)
  detect_moves_conserves =
      let (d, e, v) = detect_moves-Inv in
      (
        d,
        e,
        λ p. rw (total-append (hit p)) (omega (arith, v.deleted (hit p))),
        λ p. rw (total-append (hit p)) (v.added (hit p)),
      )

-- Equal positive sizes, and the same checksum or the same file name.
abbrev pub IsSameFile : CandidateItem → CandidateItem → Type 0
IsSameFile del a =
    (del.size ≡ a.size)
    × (0 < del.size)
    × (((c : Text) × (del.checksum ≡ some c) × (a.checksum ≡ some c))
        ⊎ ((f : Text) × (file_name del.rel_path ≡ some f) × (file_name a.rel_path ≡ some f)))

same_some_shared :
    (a b : Option Text) → same_some a b ≡ true → (c : Text) × (a ≡ some c) × (b ≡ some c)
unfolding same_some
same_some_shared none b h = cc
same_some_shared (some a) none h = cc
same_some_shared (some a) (some b) h = (a, refl, ap some (sym ((text_eq_iff a b).0 h)))

pub matches-IsSameFile : (del a : CandidateItem) → matches del a ≡ true → IsSameFile del a
unfolding matches
matches-IsSameFile del a h = (
  ground arith,
  ground arith,
  elim (or-cases (checksum_matches del a) (filename_matches del a) (ground arith)) [
    | inl c ↦ inl (same_some_shared del.checksum a.checksum c)
    | inr f ↦ inr (same_some_shared (file_name del.rel_path) (file_name a.rel_path) f)
  ],
)

-- A move that the detector may report.
pub data MovesSameFile (deletions additions : Items) (m : DetectedMove) : Type 0 where
  moves_same :
      (del a : CandidateItem)
      → In del deletions
      → In a additions
      → IsSameFile del a
      → m ≡ move_of del a
      → MovesSameFile deletions additions m

justified-MovesSameFile :
    (deletions additions : Items) (m : DetectedMove)
    → IsJustified deletions additions m
    → MovesSameFile deletions additions m
justified-MovesSameFile dels adds m (justified del a i j h e) =
    moves_same del a i j (matches-IsSameFile del a h) e

-- Every reported move takes a given deletion to a given addition of the same positive size, with
-- the same checksum or the same file name; and no deletion handed back matches an addition handed
-- back, so no further move could be reported.
pub detect_moves_sound :
    (deletions additions : Items) (d : Detection)
    → detect_moves deletions additions ≡ some d
    → All (MovesSameFile deletions additions) d.moves
      × Apart d.unmatched_deletions d.unmatched_additions
detect_moves_sound deletions additions d e =
    let (d0, e0, v) = detect_moves-Inv deletions additions in
    let same : d0 ≡ d = cc in
    subst
      (λ x.
        All (MovesSameFile deletions additions) x.moves
        × Apart x.unmatched_deletions x.unmatched_additions)
      same (All-mono _ _ d0.moves (justified-MovesSameFile deletions additions) v.moved, v.apart)
