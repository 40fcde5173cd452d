-- ===== src/Ui/Fields.antt =====
-- How the web interface of crates/cloud_sync_ui reads each line of a status.
use cloud_sync_lib.Ui.Lists.{IsPlain, unquote-quoted, list_items-show_list}
use cloud_sync_lib.Base.{
  ℕ, ◌≡◌, refl, ap, ◌∙◌, Bool, true, false, Option, some, List, [], ◌∷◌, ◌++◌, ◌==◌,
}
use cloud_sync_lib.Base.Lists.{All}
use cloud_sync_lib.Base.Lines.{
  trim_whitespace, trim_whitespace-framed, trim_start_matches-append, is_line, trim_right,
  trim_left,
}
use cloud_sync_lib.Base.Text.{Text, codes, text_eq, starts_with}
use cloud_sync_lib.Daemon.Status.{show_bool, show_more, show_list, quoted}
use cloud_sync_lib.Ui.Parser.{Payload, with_details, value_of, unquote, list_items, read_line}

-- A raw value is printed as it is: it has no white space and no quotation mark at its ends, is
-- one line and does not start with its label.
pub record IsRaw (label v : Text) : Type 0 where
  pub one_line : is_line v ≡ true
  pub no_label : starts_with v label ≡ false
  pub trimmed : trim_whitespace v ≡ v
  pub unquoted : unquote v ≡ v

module _ {Json : Type 0} (to_json : Json → Text) (from_str : Text → Option Json) where
  -- What is relied on of the JSON library: compact JSON is one line and has no white space around.
  pub record IsCompact : Type 0 where
    pub one_line : (j : Json) → is_line (to_json j) ≡ true
    pub no_label : (j : Json) → starts_with (to_json j) (codes "Backend Details: ") ≡ false
    pub trimmed : (j : Json) → trim_whitespace (to_json j) ≡ to_json j
    pub parses : (j : Json) → from_str (to_json j) ≡ some j

starts_with-show_bool :
    (v : Bool) (b : ℕ) (p : Text)
    → (b'f' == b) ≡ false
    → (b't' == b) ≡ false
    → starts_with (show_bool v) (b ∷ p) ≡ false
unfolding starts_with
starts_with-show_bool true b p h k = rw k refl
starts_with-show_bool false b p h k = rw h refl

starts_with-show_list :
    (debug : Text → Text) (ns : List Text) (b : ℕ) (p : Text)
    → (b'[' == b) ≡ false
    → starts_with (show_list debug ns) (b ∷ p) ≡ false
unfolding starts_with show_list
starts_with-show_list debug [] b p h = rw h refl
starts_with-show_list debug (n ∷ ns) b p h = rw h refl

value_of-append :
    (b : ℕ) (p v : Text)
    → starts_with v (b ∷ p) ≡ false
    → trim_whitespace v ≡ v
    → value_of (b ∷ p) ((b ∷ p) ++ v) ≡ v
unfolding value_of
value_of-append b p v h t = ap trim_whitespace (trim_start_matches-append b p v h) ∙ t

trim_whitespace-show_list :
    (debug : Text → Text) (ns : List Text)
    → trim_whitespace (show_list debug ns) ≡ show_list debug ns
unfolding show_list
trim_whitespace-show_list debug [] = trim_whitespace-framed b'[' b']' [] refl refl
trim_whitespace-show_list debug (n ∷ ns) =
    trim_whitespace-framed b'[' b']' (debug n ++ show_more debug ns) refl refl

is_true : (v : Bool) → text_eq (show_bool v) (codes "true") ≡ v
unfolding text_eq
is_true true = refl
is_true false = refl

trim_whitespace-show_bool : (v : Bool) → trim_whitespace (show_bool v) ≡ show_bool v
unfolding trim_whitespace trim_left trim_right
trim_whitespace-show_bool true = refl
trim_whitespace-show_bool false = refl

module _ (b : ℕ) (p : Text) where
  bool_value :
      (v : Bool)
      → starts_with (show_bool v) (b ∷ p) ≡ false
      → text_eq (value_of (b ∷ p) ((b ∷ p) ++ show_bool v)) (codes "true") ≡ v
  bool_value v h =
      ap (λ t. text_eq t (codes "true"))
        (value_of-append b p (show_bool v) h (trim_whitespace-show_bool v))
      ∙ is_true v

  quoted_value :
      (v : Text)
      → starts_with (quoted v) (b ∷ p) ≡ false
      → unquote (value_of (b ∷ p) ((b ∷ p) ++ quoted v)) ≡ v
  quoted_value v h =
      ap unquote (value_of-append b p (quoted v) h (trim_whitespace-framed 34 34 v refl refl))
      ∙ unquote-quoted v

  raw_value : (v : Text) → IsRaw (b ∷ p) v → unquote (value_of (b ∷ p) ((b ∷ p) ++ v)) ≡ v
  raw_value v h = ap unquote (value_of-append b p v h.no_label h.trimmed) ∙ h.unquoted

  list_value :
      (debug : Text → Text) (ns : List Text)
      → All (IsPlain debug) ns
      → starts_with (show_list debug ns) (b ∷ p) ≡ false
      → list_items (value_of (b ∷ p) ((b ∷ p) ++ show_list debug ns)) ≡ ns
  list_value debug ns h k =
      ap list_items
        (value_of-append b p (show_list debug ns) k (trim_whitespace-show_list debug ns))
      ∙ list_items-show_list debug ns h

module _ {Json : Type 0} (debug : Text → Text) (to_json : Json → Text)
    (from_str : Text → Option Json) where
  pub read_line-paused :
      (v : Bool) (p : Payload Json)
      → read_line from_str (codes "Paused: " ++ show_bool v) p ≡ record p { paused = v }
  unfolding read_line starts_with
  read_line-paused v p =
      ap (λ t. record p { paused = t })
        (bool_value b'P' (codes "aused: ") v
          (starts_with-show_bool v b'P' (codes "aused: ") refl refl))

  pub read_line-watch_directory :
      (v : Text) (p : Payload Json)
      → read_line from_str (codes "Watch Directory: " ++ quoted v) p
        ≡ record p { watch_directory = v }
  unfolding read_line starts_with
  read_line-watch_directory v p =
      ap (λ t. record p { watch_directory = t })
        (quoted_value b'W' (codes "atch Directory: ") v refl)

  pub read_line-config_file :
      (v : Text) (p : Payload Json)
      → IsRaw (codes "Config File: ") v
      → read_line from_str (codes "Config File: " ++ v) p ≡ record p { config_file = v }
  unfolding read_line starts_with
  read_line-config_file v p h =
      ap (λ t. record p { config_file = t }) (raw_value b'C' (codes "onfig File: ") v h)

  pub read_line-active_backends :
      (ns : List Text) (p : Payload Json)
      → All (IsPlain debug) ns
      → read_line from_str (codes "Active Backends: " ++ show_list debug ns) p
        ≡ record p { active_backends = p.active_backends ++ ns }
  unfolding read_line starts_with
  read_line-active_backends ns p h =
      ap (λ t. record p { active_backends = p.active_backends ++ t })
        (list_value b'A' (codes "ctive Backends: ") debug ns h
          (starts_with-show_list debug ns b'A' (codes "ctive Backends: ") refl))

  pub read_line-failed_backends :
      (ns : List Text) (p : Payload Json)
      → All (IsPlain debug) ns
      → read_line from_str (codes "Failed Backends: " ++ show_list debug ns) p
        ≡ record p { failed_backends = p.failed_backends ++ ns }
  unfolding read_line starts_with
  read_line-failed_backends ns p h =
      ap (λ t. record p { failed_backends = p.failed_backends ++ t })
        (list_value b'F' (codes "ailed Backends: ") debug ns h
          (starts_with-show_list debug ns b'F' (codes "ailed Backends: ") refl))

  pub read_line-simulated_backends :
      (ns : List Text) (p : Payload Json)
      → All (IsPlain debug) ns
      → read_line from_str (codes "Simulated Backends: " ++ show_list debug ns) p
        ≡ record p { simulated_backends = p.simulated_backends ++ ns }
  unfolding read_line starts_with
  read_line-simulated_backends ns p h =
      ap (λ t. record p { simulated_backends = p.simulated_backends ++ t })
        (list_value b'S' (codes "imulated Backends: ") debug ns h
          (starts_with-show_list debug ns b'S' (codes "imulated Backends: ") refl))

  pub read_line-backend_details :
      (j : Json) (p : Payload Json)
      → IsCompact to_json from_str
      → read_line from_str (codes "Backend Details: " ++ to_json j) p
        ≡ record p { backend_details = j }
  unfolding read_line starts_with
  read_line-backend_details j p h =
      ap (λ t. with_details from_str (from_str t) p)
        (value_of-append b'B' (codes "ackend Details: ") (to_json j) (h.no_label j) (h.trimmed j))
      ∙ ap (λ o. with_details from_str o p) (h.parses j)

  pub read_line-syncing :
      (v : Bool) (p : Payload Json)
      → read_line from_str (codes "Syncing: " ++ show_bool v) p ≡ record p { syncing = v }
  unfolding read_line starts_with
  read_line-syncing v p =
      ap (λ t. record p { syncing = t })
        (bool_value b'S' (codes "yncing: ") v
          (starts_with-show_bool v b'S' (codes "yncing: ") refl refl))

  pub read_line-web_ui_address :
      (v : Text) (p : Payload Json)
      → IsRaw (codes "Web UI Address: ") v
      → read_line from_str (codes "Web UI Address: " ++ v) p ≡ record p { web_ui_address = v }
  unfolding read_line starts_with
  read_line-web_ui_address v p h =
      ap (λ t. record p { web_ui_address = t }) (raw_value b'W' (codes "eb UI Address: ") v h)

  pub read_line-log_file :
      (v : Text) (p : Payload Json)
      → read_line from_str (codes "Log File: " ++ quoted v) p ≡ record p { log_file = v }
  unfolding read_line starts_with
  read_line-log_file v p =
      ap (λ t. record p { log_file = t }) (quoted_value b'L' (codes "og File: ") v refl)

  pub read_line-state_directory :
      (v : Text) (p : Payload Json)
      → read_line from_str (codes "State Directory: " ++ quoted v) p
        ≡ record p { state_directory = v }
  unfolding read_line starts_with
  read_line-state_directory v p =
      ap (λ t. record p { state_directory = t })
        (quoted_value b'S' (codes "tate Directory: ") v refl)
