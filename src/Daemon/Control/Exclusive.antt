-- ===== src/Daemon/Control/Exclusive.antt =====
-- The control commands of crates/cloud_sync_daemon/src/control.rs run one synchronisation at a time.
use cloud_sync_lib.Base.{
  ℕ, zero, suc, ◌+◌, ◌||◌, ltb, ◌∙◌, ◌≤◌, ◌≡◌, refl, Bool, true, false, List, [], ◌∷◌, arith, inl,
  inr, if◌then◌else◌,
}
use cloud_sync_lib.Base.Tests.{Bool-cases}
use cloud_sync_lib.Base.Text.{Text, text_eq, codes}
use cloud_sync_lib.Storage.Errors.{Foreign, Result, ok, err}
use cloud_sync_lib.Base.Lines.{split_whitespace}
use cloud_sync_lib.Daemon.Control.{
  Services, ControlConfig, ControlState, Answered, dispatch, handle_words, handle_control_command,
  ControlEvent, received, completed, complete, run_events, reload_command, triggered, clear_command,
  resolve_command,
}

module _ {F : Foreign} {W Session : Type 0} (services : Services F W Session) where
  or_false : (b : Bool) → b ≡ (b || false)
  or_false true = refl
  or_false false = refl

  -- The answer spawns a synchronisation only if none is running, and one is running after it if one
  -- was before or is spawned.
  abbrev Exclusive : Bool → Answered F W Session → Type 0
  Exclusive running r =
      (running ≡ true → r.spawns_sync ≡ false) × (r.state.syncing ≡ (running || r.spawns_sync))

  reload_command-Exclusive :
      (p : Result Text (ControlConfig F W Session) × W) (s : ControlState F W Session)
      → Exclusive s.syncing (reload_command services p s)
  reload_command-Exclusive (ok c, w) s = (λ h. refl, or_false s.syncing)
  reload_command-Exclusive (err e, w) s = (λ h. refl, or_false s.syncing)

  clear_command-Exclusive :
      (args : List Text) (s : ControlState F W Session) (w : W)
      → Exclusive s.syncing (clear_command services args s w)
  clear_command-Exclusive [] s w = (λ h. refl, or_false s.syncing)
  clear_command-Exclusive (a ∷ args) s w = (λ h. refl, or_false s.syncing)

  resolve_command-Exclusive :
      (args : List Text) (s : ControlState F W Session) (w : W)
      → Exclusive s.syncing (resolve_command services args s w)
  resolve_command-Exclusive [] s w = (λ h. refl, or_false s.syncing)
  resolve_command-Exclusive (a ∷ []) s w = (λ h. refl, or_false s.syncing)
  resolve_command-Exclusive (a ∷ b ∷ args) s w = (λ h. refl, or_false s.syncing)

  triggered-Exclusive :
      (b : Bool) (s : ControlState F W Session) (w : W)
      → s.syncing ≡ b
      → Exclusive b (triggered services b s w)
  triggered-Exclusive true s w e = (λ h. refl, e)
  triggered-Exclusive false s w e = (λ h. cc, refl)

  either :
      (running t : Bool) (x y : Answered F W Session)
      → Exclusive running x
      → Exclusive running y
      → Exclusive running (if t then x else y)
  either running true x y h k = h
  either running false x y h k = k

  dispatch-Exclusive :
      (head : Text) (args : List Text) (s : ControlState F W Session) (w : W)
      → Exclusive s.syncing (dispatch services head args s w)
  unfolding dispatch
  dispatch-Exclusive head args s w =
      either s.syncing (text_eq head (codes "status")) _ _ (λ h. refl, or_false s.syncing)
        (either s.syncing (text_eq head (codes "get_log")) _ _ (λ h. refl, or_false s.syncing)
          (either s.syncing (text_eq head (codes "log")) _ _ (λ h. refl, or_false s.syncing)
            (either s.syncing (text_eq head (codes "pause")) _ _ (λ h. refl, or_false s.syncing)
              (either s.syncing (text_eq head (codes "resume")) _ _ (λ h. refl, or_false s.syncing)
                (either s.syncing (text_eq head (codes "reload")) _ _
                  (reload_command-Exclusive (services.load_config s.config_file w) s)
                  (either s.syncing (text_eq head (codes "sync")) _ _
                    (triggered-Exclusive s.syncing s w refl)
                    (either s.syncing (text_eq head (codes "clear")) _ _
                      (clear_command-Exclusive args s w)
                      (either s.syncing (text_eq head (codes "conflicts")) _ _
                        (λ h. refl, or_false s.syncing)
                        (either s.syncing (text_eq head (codes "resolve_conflict")) _ _
                          (resolve_command-Exclusive args s w)
                          (either s.syncing (text_eq head (codes "get_plan")) _ _
                            (λ h. refl, or_false s.syncing)
                            (either s.syncing (text_eq head (codes "plan")) _ _
                              (λ h. refl, or_false s.syncing)
                              (either s.syncing (text_eq head (codes "stop")) _ _
                                (λ h. refl, or_false s.syncing)
                                (λ h. refl, or_false s.syncing)))))))))))))

  handle_words-Exclusive :
      (words : List Text) (s : ControlState F W Session) (w : W)
      → Exclusive s.syncing (handle_words services words s w)
  handle_words-Exclusive [] s w = (λ h. refl, or_false s.syncing)
  handle_words-Exclusive (head ∷ args) s w = dispatch-Exclusive head args s w

  handle_control_command-Exclusive :
      (cmd : Text) (s : ControlState F W Session) (w : W)
      → Exclusive s.syncing (handle_control_command services cmd s w)
  unfolding handle_control_command
  handle_control_command-Exclusive cmd s w = handle_words-Exclusive (split_whitespace cmd) s w

  -- As many synchronisations run as the flag says, and never two.
  pub record IsExclusive (s : ControlState F W Session) (running : ℕ) : Type 0 where
    pub at_most_one : running ≤ 1
    pub flagged : s.syncing ≡ ltb 0 running

  received-IsExclusive :
      (s : ControlState F W Session) (running : ℕ) (r : Answered F W Session)
      → Exclusive s.syncing r
      → IsExclusive s running
      → IsExclusive r.state ((if r.spawns_sync then 1 else 0) + running)
  received-IsExclusive s running r (once, kept) v =
      let l = v.at_most_one in
      let e = v.flagged in
      elim (Bool-cases s.syncing) [
        | inl b ↦
            let n = once b in
            let z : running ≡ 1 = ground arith in
            record { at_most_one = rw (n, z) (omega arith); flagged = kept ∙ rw (b, n, z) refl }
        | inr b ↦
            let z : running ≡ 0 = ground arith in
            elim (Bool-cases r.spawns_sync) [
              | inl y ↦ record {
                at_most_one = rw (y, z) (omega arith);
                flagged = kept ∙ rw (b, y, z) refl;
              }
              | inr n ↦ record {
                at_most_one = rw (n, z) (omega arith);
                flagged = kept ∙ rw (b, n, z) refl;
              }
            ]
      ]

  complete-IsExclusive :
      (s : ControlState F W Session) (running : ℕ)
      → IsExclusive s running
      → IsExclusive (complete services s running).0 (complete services s running).1
  complete-IsExclusive s zero v = v
  complete-IsExclusive s (suc running) v =
      let l = v.at_most_one in
      let z : running ≡ 0 = omega arith in record { at_most_one = omega arith; flagged = rw z refl }

  -- Take any sequence of commands and of ends of synchronisations, from a state whose flag says
  -- whether a synchronisation runs. At its end at most one of the synchronisations that commands
  -- spawned is running, and the flag says again whether one is.
  pub run_events-IsExclusive :
      (events : List (ControlEvent services)) (s : ControlState F W Session) (running : ℕ) (w : W)
      → IsExclusive s running
      → (let (s', running') = run_events services events s running w in IsExclusive s' running')
  unfolding run_events
  run_events-IsExclusive [] s running w v = v
  run_events-IsExclusive (received cmd ∷ events) s running w v =
      let r = handle_control_command services cmd s w in
      run_events-IsExclusive events r.state _ r.world
        (received-IsExclusive s running r (handle_control_command-Exclusive cmd s w) v)
  run_events-IsExclusive (completed ∷ events) s running w v =
      run_events-IsExclusive events _ _ w (complete-IsExclusive s running v)
