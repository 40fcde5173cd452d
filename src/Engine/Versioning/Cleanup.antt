-- ===== src/Engine/Versioning/Cleanup.antt =====
-- `cleanup_expired` of crates/cloud_sync_daemon/src/engine/versioning.rs, over the entries that the
-- listing of the trash directory yields, one after the other. A time is a number of nanoseconds since
-- the epoch, and the cutoff may lie before it, where `checked_sub` succeeds all the same.
use cloud_sync_lib.Base.{
  ℕ, suc, ◌+◌, ◌*◌, ◌≡◌, refl, inl, inr, Bool, true, false, not, Option, none, some, List, [], ◌∷◌,
  ltb, if◌then◌else◌,
}
use cloud_sync_lib.Base.Tests.{Bool-cases}
use cloud_sync_lib.Base.Lists.{In}
use cloud_sync_lib.Base.Text.{Text}
use cloud_sync_lib.Storage.Errors.{Result, ok, err}
use cloud_sync_lib.Engine.Versioning.{VersioningConfig}

-- An entry with its modification time, if its metadata can be read.
pub record TrashEntry : Type 0 where
  pub path : Text
  pub modified : Option ℕ

-- `retention_days as u64 * 86400` seconds
abbrev pub retention : VersioningConfig → ℕ
retention c = c.retention_days * 86400 * 1000000000

unfoldable pub is_expired : VersioningConfig → ℕ → TrashEntry → Bool
is_expired c now t = elim t.modified [
  | none ↦ false
  | some modified ↦ ltb (modified + retention c) now
]

module _ {Io W : Type 0} (exists : Text → W → Bool)
    (read_dir : Text → W → Result Io (List (Result Io TrashEntry))) (now : W → ℕ)
    (remove_file : Text → W → Bool × W) where
  unfoldable pub purge :
      VersioningConfig → ℕ → List (Result Io TrashEntry) → ℕ → W → Result Io ℕ × W
  unfolding is_expired
  purge c time [] purged w = (ok purged, w)
  purge c time (err e ∷ entries) purged w = (err e, w)
  purge c time (ok t ∷ entries) purged w =
      if is_expired c time t
      then (let (removed, w') = remove_file t.path w in
          purge c time entries (if removed then suc purged else purged) w')
      else purge c time entries purged w

  abbrev purge_listed :
      VersioningConfig → Result Io (List (Result Io TrashEntry)) → W → Result Io ℕ × W
  purge_listed c (err e) w = (err e, w)
  purge_listed c (ok entries) w = purge c (now w) entries 0 w

  unfoldable pub cleanup_expired : VersioningConfig → W → Result Io ℕ × W
  unfolding purge
  cleanup_expired c w =
      if not (exists c.trash_dir w) then (ok 0, w) else purge_listed c (read_dir c.trash_dir w) w

  -- What may happen to the world: expired entries of the listing are removed, one after the other.
  data Purges (c : VersioningConfig) (time : ℕ) (entries : List (Result Io TrashEntry))
      : W → W → Type 0 where
    kept : (w : W) → Purges c time entries w w
    removes :
        (t : TrashEntry) (w v : W)
        → In (ok t) entries
        → is_expired c time t ≡ true
        → Purges c time entries (remove_file t.path w).1 v
        → Purges c time entries w v

  Purges-later :
      {c : VersioningConfig} {time : ℕ} {entries : List (Result Io TrashEntry)} {w v : W}
      (e : Result Io TrashEntry)
      → Purges c time entries w v
      → Purges c time (e ∷ entries) w v
  Purges-later e (kept w) = kept w
  Purges-later e (removes t w v i x p) = removes t w v (inr i) x (Purges-later e p)

  purge-Purges :
      (c : VersioningConfig) (time : ℕ) (entries : List (Result Io TrashEntry)) (purged : ℕ) (w : W)
      → Purges c time entries w (purge c time entries purged w).1
  unfolding purge
  purge-Purges c time [] purged w = kept w
  purge-Purges c time (err e ∷ entries) purged w = kept w
  purge-Purges c time (ok t ∷ entries) purged w = elim (Bool-cases (is_expired c time t)) [
    | inl i ↦
        let (removed, w') = remove_file t.path w in
        rw i (
          removes t w _ (inl refl) i (
            Purges-later (ok t)
              (purge-Purges c time entries (if removed then suc purged else purged) w')))
    | inr i ↦ rw i (Purges-later (ok t) (purge-Purges c time entries purged w))
  ]

  -- When the trash directory can be listed, a cleanup only removes files of the listing whose time of
  -- modification is known and lies before the cutoff, one after the other, and nothing else happens.
  cleanup_expired-Purges :
      (c : VersioningConfig) (w : W) (entries : List (Result Io TrashEntry))
      → read_dir c.trash_dir w ≡ ok entries
      → Purges c (now w) entries w (cleanup_expired c w).1
  unfolding cleanup_expired
  cleanup_expired-Purges c w entries h = elim (Bool-cases (exists c.trash_dir w)) [
    | inl i ↦ rw (i, h) (purge-Purges c (now w) entries 0 w)
    | inr i ↦ rw i (kept w)
  ]
