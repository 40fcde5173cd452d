-- ===== src/Daemon/Backends/Enabled.antt =====
-- Exactly the configured providers that are enabled get a backend.
use cloud_sync_lib.Base.{
  ◌≡◌, refl, ap, sym, ◌∙◌, Option, none, some, List, [], ◌∷◌, ◌++◌, if◌then◌else◌, unwrap_or, arith,
}
use cloud_sync_lib.Base.Lists.{append-nil}
use cloud_sync_lib.Base.Text.{Text, codes}
use cloud_sync_lib.Storage.Policy.{SyncMode, one_way}
use cloud_sync_lib.Daemon.Backends.{
  CommonProviderSettings, common_settings, sync_mode, selective_sync, Credentials,
  BackendCredentials, AppConfig, BuiltBackend, is_enabled, is_provider_enabled, active_of,
  try_add_backend, add_enabled, build_backends, google_drive, dropbox, one_drive, web_dav, s3, sftp,
  nextcloud, box, mega, azure_blob, gcs, b2, p_cloud, ipfs,
}

-- The configured providers in the order of the configuration, each with its simulation's directory.
abbrev configured :
    {S : Type 0}
    → (Credentials S → BackendCredentials S)
    → Option (Credentials S)
    → Text
    → List (Credentials S × BackendCredentials S × Text)
configured kind none root = []
configured kind (some c) root = (c, kind c, root) ∷ []

abbrev pub all_configured :
    {S : Type 0} → AppConfig S → List (Credentials S × BackendCredentials S × Text)
all_configured config =
    (((((((((((((configured google_drive config.google_credentials config.google_drive_root)
                            ++ configured dropbox config.dropbox_credentials config.dropbox_root)
                          ++ configured one_drive config.onedrive_credentials config.onedrive_root)
                        ++ configured web_dav config.webdav_credentials config.webdav_root)
                      ++ configured s3 config.s3_credentials config.s3_root)
                    ++ configured sftp config.sftp_credentials config.sftp_root)
                  ++ configured nextcloud config.nextcloud_credentials config.nextcloud_root)
                ++ configured box config.box_credentials
                    (unwrap_or config.box_root (codes "./cloud_simulation/box")))
              ++ configured mega config.mega_credentials
                  (unwrap_or config.mega_root (codes "./cloud_simulation/mega")))
            ++ configured azure_blob config.azure_blob_credentials
                (unwrap_or config.azure_blob_root (codes "./cloud_simulation/azure_blob")))
          ++ configured gcs config.gcs_credentials
              (unwrap_or config.gcs_root (codes "./cloud_simulation/gcs")))
        ++ configured b2 config.b2_credentials
            (unwrap_or config.b2_root (codes "./cloud_simulation/b2")))
      ++ configured p_cloud config.pcloud_credentials
          (unwrap_or config.pcloud_root (codes "./cloud_simulation/pcloud")))
    ++ configured ipfs config.ipfs_credentials
        (unwrap_or config.ipfs_root (codes "./cloud_simulation/ipfs"))

abbrev pub mode_of : Option SyncMode → SyncMode
mode_of none = one_way
mode_of (some mode) = mode

mode_or-mode : (o : Option SyncMode) → unwrap_or o one_way ≡ mode_of o
mode_or-mode none = refl
mode_or-mode (some mode) = refl

module _ {S L B : Type 0} (build_wrapped : BackendCredentials S → Text → Option L → Option L → B)
    (upload_limiter download_limiter : Option L) where
  abbrev pub built : Credentials S → BackendCredentials S → Text → BuiltBackend B
  built c creds root = record {
    backend = build_wrapped creds root upload_limiter download_limiter;
    policy = record { mode = mode_of c.common.sync_mode };
    selective_sync = c.common.selective_sync;
  }

  -- A backend for each, unless it is switched off. The mode is one-way unless another is set.
  unfoldable pub active_if_enabled :
      List (Credentials S × BackendCredentials S × Text) → List (BuiltBackend B)
  active_if_enabled [] = []
  active_if_enabled ((c, creds, root) ∷ rest) =
      let others = active_if_enabled rest in
      elim c.common.enabled [
        | none ↦ built c creds root ∷ others
        | some enabled ↦ if enabled then built c creds root ∷ others else others
      ]

  active_if_enabled-append :
      (xs ys : List (Credentials S × BackendCredentials S × Text))
      → active_if_enabled (xs ++ ys) ≡ active_if_enabled xs ++ active_if_enabled ys
  unfolding active_if_enabled
  active_if_enabled-append [] ys = refl
  active_if_enabled-append ((c, creds, root) ∷ xs) ys =
      ground (arith, active_if_enabled-append xs ys)

  nothing_built : [] ≡ active_if_enabled []
  unfolding active_if_enabled
  nothing_built = refl

  active_of-built :
      (c : Credentials S) (creds : BackendCredentials S) (root : Text)
      → common_settings creds ≡ c.common
      → active_of build_wrapped upload_limiter download_limiter creds root ≡ built c creds root
  unfolding sync_mode selective_sync
  active_of-built c creds root e =
      ap
        (λ (x : CommonProviderSettings). record {
          backend = build_wrapped creds root upload_limiter download_limiter;
          policy = record { mode = unwrap_or x.sync_mode one_way };
          selective_sync = x.selective_sync;
        })
        e
      ∙ rw mode_or-mode refl

  add_enabled-configured :
      (kind : Credentials S → BackendCredentials S) (o : Option (Credentials S)) (root : Text)
      (xs : List (Credentials S × BackendCredentials S × Text)) {bs : List (BuiltBackend B)}
      → ((c : Credentials S) → common_settings (kind c) ≡ c.common)
      → bs ≡ active_if_enabled xs
      → add_enabled build_wrapped upload_limiter download_limiter kind o root bs
        ≡ active_if_enabled (xs ++ configured kind o root)
  unfolding is_provider_enabled is_enabled try_add_backend
  add_enabled-configured kind none root xs {bs} same e =
      e ∙ ap active_if_enabled (sym (append-nil xs))
  add_enabled-configured kind (some c) root xs {bs} same e =
      let b = active_of-built c (kind c) root (same c) in
      rw (active_if_enabled-append, e, b)
        (unfold active_if_enabled in ground (arith, append-nil (active_if_enabled xs)))

  -- The backends that are built are those of the configured providers that are not switched off, in
  -- the order of the configuration: each with the mode that is set for it, one-way if none is, and the
  -- folders that are set for it.
  pub build_backends_enabled :
      (config : AppConfig S)
      → build_backends build_wrapped upload_limiter download_limiter config
        ≡ active_if_enabled (all_configured config)
  unfolding build_backends common_settings
  build_backends_enabled config =
      add_enabled-configured ipfs config.ipfs_credentials
        (unwrap_or config.ipfs_root (codes "./cloud_simulation/ipfs")) _ (λ c. refl)
        (add_enabled-configured p_cloud config.pcloud_credentials
          (unwrap_or config.pcloud_root (codes "./cloud_simulation/pcloud")) _ (λ c. refl)
          (add_enabled-configured b2 config.b2_credentials
            (unwrap_or config.b2_root (codes "./cloud_simulation/b2")) _ (λ c. refl)
            (add_enabled-configured gcs config.gcs_credentials
              (unwrap_or config.gcs_root (codes "./cloud_simulation/gcs")) _ (λ c. refl)
              (add_enabled-configured azure_blob config.azure_blob_credentials
                (unwrap_or config.azure_blob_root (codes "./cloud_simulation/azure_blob")) _
                (λ c. refl)
                (add_enabled-configured mega config.mega_credentials
                  (unwrap_or config.mega_root (codes "./cloud_simulation/mega")) _ (λ c. refl)
                  (add_enabled-configured box config.box_credentials
                    (unwrap_or config.box_root (codes "./cloud_simulation/box")) _ (λ c. refl)
                    (add_enabled-configured nextcloud config.nextcloud_credentials
                      config.nextcloud_root _ (λ c. refl)
                      (add_enabled-configured sftp config.sftp_credentials config.sftp_root _
                        (λ c. refl)
                        (add_enabled-configured s3 config.s3_credentials config.s3_root _
                          (λ c. refl)
                          (add_enabled-configured web_dav config.webdav_credentials
                            config.webdav_root _ (λ c. refl)
                            (add_enabled-configured one_drive config.onedrive_credentials
                              config.onedrive_root _ (λ c. refl)
                              (add_enabled-configured dropbox config.dropbox_credentials
                                config.dropbox_root _ (λ c. refl)
                                (add_enabled-configured google_drive config.google_credentials
                                  config.google_drive_root [] (λ c. refl) nothing_built)))))))))))))
