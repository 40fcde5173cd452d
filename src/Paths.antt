-- ===== src/Paths.antt =====
-- crates/cloud_sync_core/src/path.rs: remote paths. A `Cow` is its text.
pub mod Encode
pub mod EncodeRoundTrip
pub mod Segments
pub mod Normalized
pub mod Formats
pub mod Examples
use cloud_sync_lib.Base.{
  ℕ, ◌+◌, Bool, true, false, ◌&&◌, ◌||◌, not, Option, none, some, List, [], ◌∷◌, ◌++◌, map, ltb,
  leb, ◌==◌, if◌then◌else◌,
}
use cloud_sync_lib.Base.Lists.{length, is_empty}
use cloud_sync_lib.Base.Text.{
  Text, codes, text_eq, contains_char, replace, trim_start, trim, split, before_first, parent,
  file_name, strip_prefix,
}
use cloud_sync_lib.Storage.Errors.{Result, ok, err}

-- `u8::to_ascii_lowercase`
abbrev pub ascii_lowercase : ℕ → ℕ
ascii_lowercase b = if leb b'A' b && leb b b'Z' then b + 32 else b

abbrev pub eq_ignore_ascii_case : Text → Text → Bool
eq_ignore_ascii_case s t = text_eq (map ascii_lowercase s) (map ascii_lowercase t)

-- `&stem[..3]` panics where byte 3 does not start a character: `none`.
unfoldable pub is_numbered_port : Text → Option Bool
unfolding text_eq
is_numbered_port (a ∷ b ∷ c ∷ d ∷ []) =
    if leb 128 d && ltb d 192
    then none
    else some (
        (eq_ignore_ascii_case (a ∷ b ∷ c ∷ []) (codes "COM")
          || eq_ignore_ascii_case (a ∷ b ∷ c ∷ []) (codes "LPT"))
        && leb b'1' d
        && leb d b'9')
is_numbered_port _ = some false

unfoldable pub is_reserved_dos_name : Text → Option Bool
unfolding before_first text_eq is_numbered_port
is_reserved_dos_name name =
    let stem = before_first b'.' name in
    if eq_ignore_ascii_case stem (codes "CON")
      || eq_ignore_ascii_case stem (codes "PRN")
      || eq_ignore_ascii_case stem (codes "AUX")
      || eq_ignore_ascii_case stem (codes "NUL")
    then some true
    else is_numbered_port stem

-- A result, or a panic.
abbrev pub Checked : Type 0 → Type 0
Checked A = Option (Result Text A)

abbrev pub traversal_error : Text
traversal_error = codes "Unsafe path traversal sequence detected"

abbrev pub colon_error : Text
colon_error = codes "Alternate Data Stream or colon prohibited in paths"

abbrev pub device_error : Text
device_error = codes "DOS reserved device name prohibited in paths"

abbrev after_device : Option Bool → Checked (Unit {0}) → Checked (Unit {0})
after_device none rest = none
after_device (some true) rest = some (err device_error)
after_device (some false) rest = rest

-- The body of the loop over the segments.
unfoldable pub check_segment : Text → Checked (Unit {0}) → Checked (Unit {0})
unfolding text_eq contains_char is_reserved_dos_name
check_segment segment rest =
    if text_eq segment (codes ".") || text_eq segment (codes "..")
    then some (err traversal_error)
    else if contains_char b':' segment
    then some (err colon_error)
    else after_device (is_reserved_dos_name segment) rest

unfoldable pub check_segments : List Text → Checked (Unit {0})
unfolding check_segment
check_segments [] = some (ok tt)
check_segments (segment ∷ rest) = check_segment segment (check_segments rest)

-- `path.replace('\\', "/")` and `trim_start_matches('/')`; 92 is the backslash.
unfoldable pub trimmed : Text → Text
unfolding replace trim_start
trimmed path = trim_start b'/' (replace 92 b'/' path)

abbrev keep_path : Text → Checked (Unit {0}) → Checked Text
keep_path path none = none
keep_path path (some (ok u)) = some (ok path)
keep_path path (some (err e)) = some (err e)

-- `NormalizedPath::new`
unfoldable pub new_path : Text → Checked Text
unfolding contains_char trimmed split check_segments
new_path path =
    if contains_char 0 path
    then some (err (codes "Null bytes are prohibited in paths"))
    else if is_empty (trimmed path)
    then some (ok [])
    else keep_path (trimmed path) (check_segments (split b'/' (trimmed path)))

unfoldable pub new_unchecked : Text → Text
unfolding trimmed
new_unchecked path = trimmed path

-- `NormalizedPath::join`
unfoldable pub join : Text → Text → Text
unfolding new_unchecked trim replace
join path child =
    if is_empty path then new_unchecked child else path ++ b'/' ∷ trim b'/' (replace 92 b'/' child)

unfoldable pub normalize_remote_path : Text → Text
unfolding contains_char replace
normalize_remote_path path = if contains_char 92 path then replace 92 b'/' path else path

-- The trimmed destination folder, if one is given and something is left of it.
abbrev pub clean_dest : Option Text → Text
unfolding normalize_remote_path trim
clean_dest none = []
clean_dest (some dest_folder) = trim b'/' (normalize_remote_path dest_folder)

unfoldable pub format_relative_path : Text → Option Text → Text
unfolding normalize_remote_path trim_start contains_char
format_relative_path remote_path destination_folder =
    let has_backslash = contains_char 92 remote_path in
    let clean_path = trim_start b'/' (normalize_remote_path remote_path) in
    let dest = clean_dest destination_folder in
    if not (is_empty dest)
    then (if is_empty clean_path then dest else dest ++ b'/' ∷ clean_path)
    else if has_backslash || not (length clean_path == length remote_path)
    then clean_path
    else remote_path

unfoldable pub format_absolute_path : Text → Option Text → Text
unfolding normalize_remote_path trim_start contains_char
format_absolute_path remote_path destination_folder =
    let clean_path = trim_start b'/' (normalize_remote_path remote_path) in
    let dest = clean_dest destination_folder in
    (if is_empty dest then [] else b'/' ∷ dest)
    ++ (if is_empty clean_path then [] else b'/' ∷ clean_path)
