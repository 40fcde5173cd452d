-- ===== src/Paths/Normalized.antt =====
-- `NormalizedPath` of crates/cloud_sync_core/src/path.rs: what `new` accepts, and what `join` does to
-- an accepted path.
use mathlib.Core.Path.{subst}
use cloud_sync_lib.Base.{
  ◌⊎◌, ◌==◌, sym, ℕ, ap, ◌≡◌, refl, ◌∙◌, inl, inr, Bool, true, false, Option, none, some, List, [],
  ◌∷◌, ◌++◌, arith,
}
use cloud_sync_lib.Base.Tests.{Bool-cases}
use cloud_sync_lib.Base.Lists.{is_empty, All}
use cloud_sync_lib.Base.Text.{
  trim_end, trim_start, before_first, trim, Text, codes, text_eq, contains_char, replace, split,
}
use cloud_sync_lib.Storage.Errors.{ok, err}
use cloud_sync_lib.Paths.{
  traversal_error, is_numbered_port, new_path, join, Checked, check_segment, check_segments,
  after_device, keep_path, trimmed, is_reserved_dos_name,
}
use cloud_sync_lib.Paths.Segments.{
  contains_char-trim_end, trim_start-id, split-append, contains_char-append, replace-id, Unled,
  trim_start-Unled, contains_char-trim_start, contains_char-replace,
}

-- A segment that `new` lets through.
pub record IsSafeSegment (s : Text) : Type 0 where
  pub no_dot : text_eq s (codes ".") ≡ false
  pub no_dots : text_eq s (codes "..") ≡ false
  pub no_colon : contains_char b':' s ≡ false
  pub no_device : is_reserved_dos_name s ≡ some false

-- A path without NUL, backslash or leading slash, all of whose segments are safe.
pub record IsNormalized (q : Text) : Type 0 where
  pub no_nul : contains_char 0 q ≡ false
  pub no_backslash : contains_char 92 q ≡ false
  pub relative : Unled b'/' q
  pub segments_safe : All IsSafeSegment (split b'/' q)

after_device-ok :
    (o : Option Bool) (rest : Checked (Unit {0}))
    → after_device o rest ≡ some (ok tt)
    → (o ≡ some false) × (rest ≡ some (ok tt))
after_device-ok none rest h = ground arith
after_device-ok (some true) rest h = ground arith
after_device-ok (some false) rest h = (refl, h)

check_segment-ok :
    (s : Text) (rest : Checked (Unit {0}))
    → check_segment s rest ≡ some (ok tt)
    → IsSafeSegment s × (rest ≡ some (ok tt))
unfolding check_segment
check_segment-ok s rest h = elim (Bool-cases (text_eq s (codes "."))) [
  | inl i ↦ ground arith
  | inr i ↦ elim (Bool-cases (text_eq s (codes ".."))) [
    | inl j ↦ ground arith
    | inr j ↦ elim (Bool-cases (contains_char b':' s)) [
      | inl k ↦ ground arith
      | inr k ↦
          let d : after_device (is_reserved_dos_name s) rest ≡ some (ok tt) = ground arith in
          let (l, r) = after_device-ok (is_reserved_dos_name s) rest d in
          (record { no_dot = i; no_dots = j; no_colon = k; no_device = l }, r)
    ]
  ]
]

check_segment-IsSafeSegment :
    (s : Text) (rest : Checked (Unit {0})) → IsSafeSegment s → check_segment s rest ≡ rest
unfolding check_segment
check_segment-IsSafeSegment s rest h = rw (h.no_dot, h.no_dots, h.no_colon, h.no_device) refl

check_segments-ok : (ss : List Text) → check_segments ss ≡ some (ok tt) → All IsSafeSegment ss
unfolding check_segments
check_segments-ok [] h = tt
check_segments-ok (s ∷ ss) h =
    let (a, b) = check_segment-ok s (check_segments ss) h in (a, check_segments-ok ss b)

-- Safe segments in front do not count.
check_segments-append :
    (ss ts : List Text) → All IsSafeSegment ss → check_segments (ss ++ ts) ≡ check_segments ts
unfolding check_segments
check_segments-append [] ts h = refl
check_segments-append (s ∷ ss) ts h =
    check_segment-IsSafeSegment s (check_segments (ss ++ ts)) h.0 ∙ check_segments-append ss ts h.1

check_segments-IsSafeSegment :
    (ss : List Text) → All IsSafeSegment ss → check_segments ss ≡ some (ok tt)
unfolding check_segments
check_segments-IsSafeSegment [] h = refl
check_segments-IsSafeSegment (s ∷ ss) h =
    check_segment-IsSafeSegment s (check_segments ss) h.0 ∙ check_segments-IsSafeSegment ss h.1

keep_path-ok :
    (p q : Text) (r : Checked (Unit {0}))
    → keep_path p r ≡ some (ok q)
    → (p ≡ q) × (r ≡ some (ok tt))
keep_path-ok p q none h = ground arith
keep_path-ok p q (some (ok u)) h = (ground arith, refl)
keep_path-ok p q (some (err e)) h = ground arith

trimmed-IsNormalized :
    (p : Text)
    → contains_char 0 p ≡ false
    → All IsSafeSegment (split b'/' (trimmed p))
    → IsNormalized (trimmed p)
unfolding trimmed
trimmed-IsNormalized p h s = record {
  no_nul =
      contains_char-trim_start 0 b'/' (replace 92 b'/' p)
        (contains_char-replace 0 92 b'/' p refl (inr h));
  no_backslash =
      contains_char-trim_start 92 b'/' (replace 92 b'/' p)
        (contains_char-replace 92 92 b'/' p refl (inl refl));
  relative = trim_start-Unled b'/' (replace 92 b'/' p);
  segments_safe = s;
}

IsSafeSegment-empty : IsSafeSegment []
unfolding text_eq contains_char is_reserved_dos_name before_first is_numbered_port
IsSafeSegment-empty = record { no_dot = refl; no_dots = refl; no_colon = refl; no_device = refl }

IsNormalized-empty : IsNormalized []
unfolding contains_char split
IsNormalized-empty = record {
  no_nul = refl;
  no_backslash = refl;
  relative = tt;
  segments_safe = (IsSafeSegment-empty, tt);
}

is_empty-nil : (s : Text) → is_empty s ≡ true → s ≡ []
is_empty-nil [] h = refl
is_empty-nil (a ∷ s) h = ground arith

-- A path that `new` accepts is the given one with slashes for backslashes and without its leading
-- slashes; it has no NUL byte, no backslash and no leading slash, and none of its segments is a
-- dot, two dots, has a colon or names a device.
pub new_path-IsNormalized :
    (p q : Text) → new_path p ≡ some (ok q) → (trimmed p ≡ q) × IsNormalized q
unfolding new_path
new_path-IsNormalized p q h = elim (Bool-cases (contains_char 0 p)) [
  | inl i ↦ ground arith
  | inr i ↦ elim (Bool-cases (is_empty (trimmed p))) [
    | inl j ↦
        let e : [] ≡ q = ground arith in
        (is_empty-nil (trimmed p) j ∙ e, subst IsNormalized e IsNormalized-empty)
    | inr j ↦
        let k : keep_path (trimmed p) (check_segments (split b'/' (trimmed p))) ≡ some (ok q) =
          ground arith in
        let (e, r) = keep_path-ok (trimmed p) q (check_segments (split b'/' (trimmed p))) k in
        (
          e,
          subst IsNormalized e
              (trimmed-IsNormalized p i (check_segments-ok (split b'/' (trimmed p)) r)),
        )
  ]
]

trimmed-id : (q : Text) → contains_char 92 q ≡ false → Unled b'/' q → trimmed q ≡ q
unfolding trimmed
trimmed-id q h u = let e = replace-id 92 b'/' q h in ap (trim_start b'/') e ∙ trim_start-id b'/' q u

-- `new` on a path that needs no trimming.
new_path-trimmed :
    (q : Text)
    → contains_char 0 q ≡ false
    → contains_char 92 q ≡ false
    → Unled b'/' q
    → is_empty q ≡ false
    → new_path q ≡ keep_path q (check_segments (split b'/' q))
unfolding new_path
new_path-trimmed q n h u e = let t = trimmed-id q h u in rw (n, t, e) refl

-- A normalized path is accepted as it is.
new_path-id : (q : Text) → IsNormalized q → new_path q ≡ some (ok q)
unfolding new_path
new_path-id q v =
    let t = trimmed-id q v.no_backslash v.relative in
    let c = check_segments-IsSafeSegment (split b'/' q) v.segments_safe in
    elim (Bool-cases (is_empty q)) [
      | inl e ↦ rw (v.no_nul, t, e) (ap (λ s. some (ok s)) (sym (is_empty-nil q e)))
      | inr e ↦ rw (v.no_nul, t, e, c) refl
    ]

Unled-append : (q t : Text) → is_empty q ≡ false → Unled b'/' q → Unled b'/' (q ++ t)
Unled-append [] t e u = ground arith
Unled-append (a ∷ q) t e u = u

is_empty-append : (q t : Text) → is_empty q ≡ false → is_empty (q ++ t) ≡ false
is_empty-append [] t e = ground arith
is_empty-append (a ∷ q) t e = refl

-- What `join` puts behind the slash.
abbrev pub clean_child : Text → Text
clean_child child = trim b'/' (replace 92 b'/' child)

contains_char-clean_child :
    (c : ℕ) (child : Text)
    → (b'/' == c) ≡ false
    → (c ≡ 92) ⊎ (contains_char c child ≡ false)
    → contains_char c (clean_child child) ≡ false
unfolding trim
contains_char-clean_child c child i h =
    contains_char-trim_end c b'/' (trim_start b'/' (replace 92 b'/' child)) (
      contains_char-trim_start c b'/' (replace 92 b'/' child)
        (contains_char-replace c 92 b'/' child i h))

-- Joining a child without NUL bytes to a normalized, non-empty path gives a path that `new` treats
-- as the child's segments deserve: it accepts it unchanged when they are safe, and refuses it, or
-- panics, as it does for them.
new_path-join :
    (q child : Text)
    → IsNormalized q
    → is_empty q ≡ false
    → contains_char 0 child ≡ false
    → new_path (join q child)
      ≡ keep_path (join q child) (check_segments (split b'/' (clean_child child)))
unfolding join
new_path-join q child v e n =
    let t : Text = clean_child child in
    let sl0 : contains_char 0 (b'/' ∷ t) ≡ false =
      unfold contains_char in contains_char-clean_child 0 child refl (inr n) in
    let sl92 : contains_char 92 (b'/' ∷ t) ≡ false =
      unfold contains_char in contains_char-clean_child 92 child refl (inl refl) in
    let full : Text = q ++ b'/' ∷ t in
    let ne : is_empty full ≡ false = is_empty-append q (b'/' ∷ t) e in
    let whole : new_path full ≡ keep_path full (check_segments (split b'/' full)) =
      new_path-trimmed full (contains_char-append 0 q (b'/' ∷ t) v.no_nul sl0)
        (contains_char-append 92 q (b'/' ∷ t) v.no_backslash sl92)
        (Unled-append q (b'/' ∷ t) e v.relative) ne in
    let cut =
      ap check_segments (split-append b'/' q t)
      ∙ check_segments-append (split b'/' q) (split b'/' t) v.segments_safe in
    rw e (whole ∙ ap (keep_path full) cut)

dots-refused :
    (p : Text)
    → keep_path p (check_segments (split b'/' (clean_child (codes ".."))))
      ≡ some (err traversal_error)
unfolding check_segments check_segment split trim trim_end trim_start replace text_eq
dots-refused p = refl

-- The parent directory can be joined to every normalized, non-empty path, and `new` refuses the
-- joined path as a traversal.
join-traverses :
    (q : Text)
    → IsNormalized q
    → is_empty q ≡ false
    → new_path (join q (codes "..")) ≡ some (err traversal_error)
join-traverses q v e =
    new_path-join q (codes "..") v e (unfold contains_char in refl)
    ∙ dots-refused (join q (codes ".."))
