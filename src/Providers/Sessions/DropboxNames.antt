-- ===== src/Providers/Sessions/DropboxNames.antt =====
-- Which session the requests of a Dropbox upload name, in
-- crates/cloud_sync_lib/src/providers/utils.rs.
use mathlib.Core.Path.{subst}
use cloud_sync_lib.Base.{
  ℕ, zero, suc, ◌+◌, ◌-◌, min, ◌≡◌, refl, ◌⊎◌, inl, inr, Option, none, some, List, [], ◌∷◌, ltb,
}
use cloud_sync_lib.Base.Tests.{Bool-cases}
use cloud_sync_lib.Base.Text.{Text}
use cloud_sync_lib.Storage.Errors.{Foreign, StorageError, Result, ok, err}
use cloud_sync_lib.Providers.Translate.{Response, is_success}
use cloud_sync_lib.Providers.Sessions.Dropbox.{
  Step, start, append, finish, Post, Posted, posting, after_post, post_chunk, append_chunks,
  after_start, upload_session,
}

abbrev pub Names : Text → List Post → Type 0
Names id [] = Unit
Names id (p ∷ ps) = (p.session ≡ some id) × Names id ps

-- The requests after the first name one session.
abbrev pub OneSession : List Post → Type 0
OneSession ps = (ps ≡ []) ⊎ ((id : Text) × Names id ps)

-- The first request opens a session.
abbrev pub Opens : List Post → Type 0
Opens [] = Unit
Opens (p ∷ ps) = (p.step ≡ start) × (p.session ≡ none) × OneSession ps

module _ {F : Foreign} {W : Type 0} (read : ℕ → ℕ → W → Result (StorageError F) Text × W)
    (post : Post → W → Result (StorageError F) Response × W)
    (session_id : Response → Result (StorageError F) (Option Text)) where
  abbrev pub Sends : (List Post → Type 0) → Option (Posted read post session_id) → Type 0
  Sends Q none = Unit
  Sends Q (some s) = Q s.posts

  posting-Sends :
      (Q R : List Post → Type 0) (p : Post) (o : Option (Posted read post session_id))
      → ((ps : List Post) → Q ps → R (p ∷ ps))
      → Sends Q o
      → Sends R (posting read post session_id p o)
  posting-Sends Q R p none h q = tt
  posting-Sends Q R p (some s) h q = h s.posts q

  after_post-Sends :
      (Q : List Post → Type 0) (step : Step) (res : Result (StorageError F) Response) (w : W)
      (next : Response → Option (Posted read post session_id))
      → Q []
      → ((r : Response) → Sends Q (next r))
      → Sends Q (after_post read post session_id step res w next)
  after_post-Sends Q step (err e) w next q h = q
  after_post-Sends Q step (ok res) w next q h = elim (Bool-cases (is_success res.status)) [
    | inl i ↦ rw i (h res)
    | inr i ↦ rw i q
  ]

  post_chunk-Sends :
      (Q R : List Post → Type 0) (step : Step) (session : Option Text) (offset : ℕ)
      (r : Result (StorageError F) Text) (w : W)
      (next : Response → W → Option (Posted read post session_id))
      → Q []
      → R []
      → ((d : Text) (ps : List Post)
          → Q ps
          → R (record { step = step; session = session; offset = offset; body = d } ∷ ps))
      → ((a : Response) (v : W) → Sends Q (next a v))
      → Sends R (post_chunk read post session_id step session offset r w next)
  post_chunk-Sends Q R step session offset (err e) w next q z h k = z
  post_chunk-Sends Q R step session offset (ok d) w next q z h k =
      let p : Post = record { step = step; session = session; offset = offset; body = d } in
      let (res, w') = post p w in
      posting-Sends Q R p _ (h d) (after_post-Sends Q step res w' (λ a. next a w') q (λ a. k a w'))

  append_chunks-Sends :
      (id : Text) (chunk_size total_size fuel offset : ℕ) (w : W)
      → Sends (Names id) (append_chunks read post session_id id chunk_size total_size fuel offset w)
  unfolding append_chunks
  append_chunks-Sends id chunk_size total_size zero offset w = tt
  append_chunks-Sends id chunk_size total_size (suc fuel) offset w =
      elim (Bool-cases (ltb (offset + chunk_size) total_size)) [
        | inl i ↦
            let n : ℕ = min (total_size - offset) chunk_size in
            let (chunk, w') = read offset n w in
            rw (i, append_chunks)
              (post_chunk-Sends (Names id) (Names id) append (some id) offset chunk w' _ tt tt
                (λ d ps q. (refl, q))
                (λ a v. append_chunks-Sends id chunk_size total_size fuel (offset + n) v))
        | inr i ↦
            rw (i, append_chunks)
              (post_chunk-Sends (Names id) (Names id) finish (some id) offset _ _ _ tt tt
                (λ d ps q. (refl, q)) (λ a v. tt))
      ]

  one_session :
      (id : Text) (o : Option (Posted read post session_id))
      → Sends (Names id) o
      → Sends OneSession o
  one_session id none h = tt
  one_session id (some s) h = inr (id, h)

  after_start-Sends :
      (r : Result (StorageError F) (Option Text)) (w : W)
      (o : Text → Option (Posted read post session_id))
      → ((id : Text) → Sends (Names id) (o id))
      → Sends OneSession (after_start read post session_id r w o)
  after_start-Sends (err e) w o h = inl refl
  after_start-Sends (ok none) w o h = inl refl
  after_start-Sends (ok (some id)) w o h = one_session id (o id) (h id)

  pub upload_session-Opens :
      (chunk_size total_size fuel : ℕ) (w : W) (s : Posted read post session_id)
      → upload_session read post session_id chunk_size total_size fuel w ≡ some s
      → Opens s.posts
  unfolding upload_session
  upload_session-Opens chunk_size total_size fuel w s e =
      let n : ℕ = min total_size chunk_size in
      let (chunk, w') = read 0 n w in
      subst (Sends Opens) e (
        post_chunk-Sends OneSession Opens start none 0 chunk w' _ (inl refl) tt
          (λ d ps q. (refl, refl, q))
          (λ a v.
            after_start-Sends (session_id a) v _
              (λ id. append_chunks-Sends id chunk_size total_size fuel n v)))
