-- ===== src/Providers/Sessions/Dropbox.antt =====
-- `upload_dropbox_session` of crates/cloud_sync_lib/src/providers/utils.rs. Opening, seeking and one read
-- of the local file is `read`; a request is its step, the session and the offset that it
-- names and its body, and `post` sends it. The session is read from the answer by `session_id`.
use cloud_sync_lib.Base.{
  ℕ, zero, suc, ◌+◌, ◌-◌, ◌*◌, min, true, false, Option, none, some, List, [], ◌∷◌, ltb,
  if◌then◌else◌,
}
use cloud_sync_lib.Base.Text.{Text, codes}
use cloud_sync_lib.Storage.Errors.{Foreign, StorageError, provider, Result, ok, err}
use cloud_sync_lib.Providers.Translate.{Response, is_success, translate_http_error}

pub data Step : Type 0 where
  start append finish : Step

abbrev pub step_name : Step → Text
step_name start = codes "upload_session_start"
step_name append = codes "upload_session_append"
step_name finish = codes "upload_session_finish"

pub record Post : Type 0 where
  pub step : Step
  pub session : Option Text
  pub offset : ℕ
  pub body : Text

-- 10 MiB
abbrev pub dropbox_chunk : ℕ
dropbox_chunk = 10 * 1024 * 1024

module _ {F : Foreign} {W : Type 0} (read : ℕ → ℕ → W → Result (StorageError F) Text × W)
    (post : Post → W → Result (StorageError F) Response × W)
    (session_id : Response → Result (StorageError F) (Option Text)) where
  pub record Posted : Type 0 where
    pub result : Result (StorageError F) (Unit {0})
    pub posts : List Post
    pub world : W

  abbrev pub posting : Post → Option Posted → Option Posted
  posting p none = none
  posting p (some s) = some (record s { posts = p ∷ s.posts })

  abbrev pub gives_up : StorageError F → W → Option Posted
  gives_up e w = some (record { result = err e; posts = []; world = w })

  -- The answer to a request: an error of the client, a refused status, or the rest.
  abbrev pub after_post :
      Step → Result (StorageError F) Response → W → (Response → Option Posted) → Option Posted
  after_post step (err e) w next = gives_up e w
  after_post step (ok res) w next =
      if is_success res.status
      then next res
      else gives_up (translate_http_error res (codes "Dropbox") (step_name step)) w

  -- A part of the file as the body of a request.
  abbrev pub post_chunk :
      Step
      → Option Text
      → ℕ
      → Result (StorageError F) Text
      → W
      → (Response → W → Option Posted)
      → Option Posted
  post_chunk step session offset (err e) w next = gives_up e w
  post_chunk step session offset (ok chunk) w next =
      let p : Post = record { step = step; session = session; offset = offset; body = chunk } in
      let (res, w') = post p w in posting p (after_post step res w' (λ r. next r w'))

  -- An empty rest is not read.
  abbrev pub read_rest : ℕ → ℕ → W → Result (StorageError F) Text × W
  read_rest offset rest w = if ltb 0 rest then read offset rest w else (ok [], w)

  abbrev pub finish_dropbox : Text → ℕ → ℕ → W → Option Posted
  finish_dropbox id total_size offset w =
      let (chunk, w') = read_rest offset (total_size - offset) w in
      post_chunk finish (some id) offset chunk w'
        (λ r v. some (record { result = ok tt; posts = []; world = v }))

  -- `while offset + chunk_size < total_size`, and what follows it.
  unfoldable pub append_chunks : Text → ℕ → ℕ → ℕ → ℕ → W → Option Posted
  append_chunks id chunk_size total_size zero offset w = none
  append_chunks id chunk_size total_size (suc fuel) offset w =
      elim (ltb (offset + chunk_size) total_size) [
        | true ↦
            let n = min (total_size - offset) chunk_size in
            let (chunk, w') = read offset n w in
            post_chunk append (some id) offset chunk w'
              (λ r. append_chunks id chunk_size total_size fuel (offset + n))
        | false ↦ finish_dropbox id total_size offset w
      ]

  abbrev pub after_start :
      Result (StorageError F) (Option Text) → W → (Text → Option Posted) → Option Posted
  after_start (err e) w rest = gives_up e w
  after_start (ok none) w rest =
      gives_up (provider (codes "Dropbox start session response missing session_id") none) w
  after_start (ok (some id)) w rest = rest id

  unfoldable pub upload_session : ℕ → ℕ → ℕ → W → Option Posted
  unfolding append_chunks
  upload_session chunk_size total_size fuel w =
      let n = min total_size chunk_size in
      let (chunk, w') = read 0 n w in
      post_chunk start none 0 chunk w' (λ r v.
        after_start (session_id r) v (λ id. append_chunks id chunk_size total_size fuel n v))

  unfoldable pub upload_dropbox_session : ℕ → ℕ → W → Option Posted
  unfolding upload_session
  upload_dropbox_session total_size fuel w = upload_session dropbox_chunk total_size fuel w
