-- ===== src/Daemon/Control/Spaces.antt =====
-- A control command of crates/cloud_sync_daemon/src/control.rs is split at white space.
use cloud_sync_lib.Base.{◌≡◌, refl, ap, ◌∙◌, Bool, true, false, ◌||◌, not, [], ◌∷◌, ◌++◌, arith}
use cloud_sync_lib.Base.Lists.{all}
use cloud_sync_lib.Base.Lines.{is_whitespace, split_whitespace}
use cloud_sync_lib.Base.Text.{Text, codes, text_eq}
use cloud_sync_lib.Storage.Errors.{Foreign}
use cloud_sync_lib.Engine.Conflict.Registry.{to_lowercase}
use cloud_sync_lib.Daemon.Control.Resolve.{resolve_conflict}
use cloud_sync_lib.Daemon.Control.{Services, ControlState, dispatch, handle_control_command}

-- A text that is not empty and has no white space.
abbrev pub is_word : Text → Bool
is_word [] = false
is_word (a ∷ s) = all (λ c. not (is_whitespace c)) (a ∷ s)

split_whitespace-append :
    (a rest : Text)
    → is_word a ≡ true
    → split_whitespace (a ++ 32 ∷ rest) ≡ a ∷ split_whitespace rest
unfolding split_whitespace
split_whitespace-append [] rest h = cc
split_whitespace-append (a ∷ []) rest h = ground arith
split_whitespace-append (a ∷ b ∷ s) rest h = ground (arith, split_whitespace-append (b ∷ s) rest)

split_whitespace_word : (a : Text) → is_word a ≡ true → split_whitespace a ≡ a ∷ []
unfolding split_whitespace
split_whitespace_word [] h = cc
split_whitespace_word (a ∷ []) h = ground arith
split_whitespace_word (a ∷ b ∷ s) h = ground (arith, split_whitespace_word (b ∷ s))

abbrev pub is_resolution : Text → Bool
is_resolution r =
    text_eq r (codes "use_local")
    || text_eq r (codes "use_remote")
    || text_eq r (codes "keep_both")
    || text_eq r (codes "skip")

command_words :
    (a b resolution : Text)
    → is_word a ≡ true
    → is_word b ≡ true
    → is_word resolution ≡ true
    → split_whitespace (codes "resolve_conflict" ++ 32 ∷ (a ++ 32 ∷ (b ++ 32 ∷ resolution)))
      ≡ codes "resolve_conflict" ∷ a ∷ b ∷ resolution ∷ []
command_words a b resolution ha hb hr =
    split_whitespace-append (codes "resolve_conflict") (a ++ 32 ∷ (b ++ 32 ∷ resolution)) refl
    ∙ ap (λ ws. codes "resolve_conflict" ∷ ws)
        (split_whitespace-append a (b ++ 32 ∷ resolution) ha
          ∙ ap (λ ws. a ∷ ws)
              (split_whitespace-append b resolution hb
                ∙ ap (λ ws. b ∷ ws) (split_whitespace_word resolution hr)))

module _ {F : Foreign} {W Session : Type 0} (services : Services F W Session) where
  resolve_conflict_unknown :
      (s : ControlState F W Session) (rel_path r : Text) (w : W)
      → is_resolution r ≡ false
      → let x =
          resolve_conflict services.show services.rename_file s.watch_dir s.backends s.conflicts
            rel_path r w in
        (x.conflicts ≡ s.conflicts) × (x.world ≡ w)
  unfolding resolve_conflict
  resolve_conflict_unknown s rel_path r w h = ground arith

  -- Take a path of two words with one space between them. The command that names a conflict by this
  -- path, with any resolution of one word, changes neither the daemon nor the world, unless the second
  -- word of the path is itself spelled like a resolution.
  pub spaced_path_unresolved :
      (a b resolution : Text) (s : ControlState F W Session) (w : W)
      → is_word a ≡ true
      → is_word b ≡ true
      → is_word resolution ≡ true
      → is_resolution (to_lowercase b) ≡ false
      → let r =
          handle_control_command services
            (codes "resolve_conflict" ++ 32 ∷ (a ++ 32 ∷ (b ++ 32 ∷ resolution)))
            s
            w in
        (r.state ≡ s) × (r.world ≡ w)
  unfolding handle_control_command dispatch text_eq
  spaced_path_unresolved a b resolution s w ha hb hr n =
      let (c, v) = resolve_conflict_unknown s a (to_lowercase b) w n in
      rw (command_words a b resolution ha hb hr) (ap (λ m. record s { conflicts = m }) c, v)
