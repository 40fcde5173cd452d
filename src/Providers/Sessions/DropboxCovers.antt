-- ===== src/Providers/Sessions/DropboxCovers.antt =====
-- What a Dropbox upload session of crates/cloud_sync_lib/src/providers/utils.rs sends, when a read
-- may give less than its buffer holds.
use mathlib.Core.Path.{subst}
use cloud_sync_lib.Base.{
  ℕ, zero, suc, ◌+◌, ◌-◌, ◌≤◌, ◌<◌, ◌≡◌, refl, ap, min, inl, inr, Option, none, some, List, [], ◌∷◌,
  arith, ltb,
}
use cloud_sync_lib.Base.Tests.{Bool-cases}
use cloud_sync_lib.Base.Lists.{length}
use cloud_sync_lib.Base.Slices.{slice}
use cloud_sync_lib.Providers.Sessions.Parts.{joined, Carry, Full, whole-Full}
use cloud_sync_lib.Base.Text.{Text, codes}
use cloud_sync_lib.Storage.Errors.{Foreign, StorageError, Result, ok, err}
use cloud_sync_lib.Providers.Translate.{Response, is_success, translate_http_error}
use cloud_sync_lib.Providers.Sessions.DropboxNames.{Opens, upload_session-Opens}
use cloud_sync_lib.Providers.Sessions.Dropbox.{
  Step, start, append, finish, step_name, Post, Posted, posting, gives_up, after_post, post_chunk,
  finish_dropbox, append_chunks, after_start, upload_session,
}

-- A request names its offset.
abbrev pub Offset : ℕ → Post → Type 0
Offset from p = p.offset ≡ from

abbrev pub post_body : Post → Text
post_body p = p.body

abbrev content : {F : Foreign} → Result (StorageError F) Text → Text
content (ok d) = d
content (err e) = []

module _ {F : Foreign} {W : Type 0} (read : ℕ → ℕ → W → Result (StorageError F) Text × W)
    (post : Post → W → Result (StorageError F) Response × W)
    (session_id : Response → Result (StorageError F) (Option Text)) (file : Text)
    (chunk_size : ℕ) where
  abbrev Carries : ℕ → List Post → ℕ → Type 0
  Carries = Carry post_body Offset file chunk_size

  -- What a run from an offset yields.
  abbrev Covers : ℕ → Option (Posted read post session_id) → Type 0
  Covers offset o =
      (s : Posted read post session_id) × (o ≡ some s)
      × (till : ℕ) × Carries offset s.posts till
      × (s.result ≡ ok tt → till ≡ length file)

  module _
      (reads : (o n : ℕ) (w : W) (d : Text)
        → (read o n w).0 ≡ ok d
        → (length d ≤ n) × (d ≡ slice o (length d) file)) where
    gives_up-Covers :
        (offset : ℕ) (e : StorageError F) (w : W)
        → Covers offset (gives_up read post session_id e w)
    gives_up-Covers offset e w =
        (record { result = err e; posts = []; world = w }, refl, offset, refl, λ x. cc)

    posting-Covers :
        (step : Step) (session : Option Text) (offset n : ℕ) (d : Text)
        (o : Option (Posted read post session_id))
        → n ≡ min (length file - offset) chunk_size
        → length d ≤ n
        → d ≡ slice offset (length d) file
        → Covers (offset + n) o
        → Covers offset (
            posting read post session_id
              (record { step = step; session = session; offset = offset; body = d })
              o)
    posting-Covers step session offset n d o a l h (s, e, till, cs, f) = rw e (
      record s {
        posts = record { step = step; session = session; offset = offset; body = d } ∷ s.posts;
      },
      refl,
      till,
      (refl, subst (λ m. length d ≤ m) a l, h, subst (λ m. Carries (offset + m) s.posts till) a cs),
      f,
    )

    after_post-Covers :
        (step : Step) (at : ℕ) (res : Result (StorageError F) Response) (w : W)
        (next : Response → Option (Posted read post session_id))
        → ((r : Response) → Covers at (next r))
        → Covers at (after_post read post session_id step res w next)
    after_post-Covers step at (err e) w next h = gives_up-Covers at e w
    after_post-Covers step at (ok res) w next h = elim (Bool-cases (is_success res.status)) [
      | inl i ↦ rw i (h res)
      | inr i ↦
          rw i (gives_up-Covers at (translate_http_error res (codes "Dropbox") (step_name step)) w)
    ]

    post_chunk-Covers :
        (step : Step) (session : Option Text) (offset n : ℕ) (r : Result (StorageError F) Text)
        (w : W) (next : Response → W → Option (Posted read post session_id))
        → n ≡ min (length file - offset) chunk_size
        → ((d : Text) → r ≡ ok d → (length d ≤ n) × (d ≡ slice offset (length d) file))
        → ((a : Response) (v : W) → Covers (offset + n) (next a v))
        → Covers offset (post_chunk read post session_id step session offset r w next)
    post_chunk-Covers step session offset n (err e) w next a h k = gives_up-Covers offset e w
    post_chunk-Covers step session offset n (ok d) w next a h k =
        let p : Post = record { step = step; session = session; offset = offset; body = d } in
        let (res, w') = post p w in
        let (l, c) = h d refl in
        posting-Covers step session offset n d _ a l c
          (after_post-Covers step (offset + n) res w' (λ x. next x w') (λ x. k x w'))

    ended-Covers :
        (id : Text) (offset n : ℕ) (r : Result (StorageError F) Text) (w : W)
        → n ≡ min (length file - offset) chunk_size
        → offset + n ≡ length file
        → ((d : Text) → r ≡ ok d → (length d ≤ n) × (d ≡ slice offset (length d) file))
        → Covers offset (
            post_chunk read post session_id finish
              (some id)
              offset
              r
              w
              (λ a v. some (record { result = ok tt; posts = []; world = v })))
    ended-Covers id offset n r w a l h =
        post_chunk-Covers finish (some id) offset n r w _ a h (λ x v.
          (record { result = ok tt; posts = []; world = v }, refl, offset + n, refl, λ y. l))

    empty_rest :
        (offset : ℕ) (d : Text)
        → ◌≡◌ {A = Result (StorageError F) Text} (ok []) (ok d)
        → (length d ≤ 0) × (d ≡ slice offset (length d) file)
    empty_rest offset d e =
        subst (λ x. (length x ≤ 0) × (x ≡ slice offset (length x) file)) (ap content e)
          (omega arith, refl)

    finish_dropbox-Covers :
        (id : Text) (offset : ℕ) (w : W)
        → offset ≤ length file
        → length file - offset ≤ chunk_size
        → Covers offset (finish_dropbox read post session_id id (length file) offset w)
    finish_dropbox-Covers id offset w l c =
        let n : ℕ = length file - offset in
        elim (Bool-cases (ltb 0 n)) [
          | inl i ↦ rw i (
              let (chunk, w') = read offset n w in
              ended-Covers id offset n chunk w' (omega arith) (omega arith) (reads offset n w))
          | inr i ↦
              let z : n ≡ 0 = ground arith in
              rw i
                (ended-Covers id offset 0 (ok []) w (omega arith) (omega arith) (empty_rest offset))
        ]

    append_chunks-Covers :
        (id : Text) (fuel offset : ℕ) (w : W)
        → 0 < chunk_size
        → offset ≤ length file
        → length file - offset < fuel
        → Covers offset
            (append_chunks read post session_id id chunk_size (length file) fuel offset w)
    unfolding append_chunks
    append_chunks-Covers id zero offset w p l m = absurd (omega arith)
    append_chunks-Covers id (suc fuel) offset w p l m =
        elim (Bool-cases (ltb (offset + chunk_size) (length file))) [
          | inl i ↦
              let o : offset + chunk_size < length file = ground arith in
              let n : ℕ = min (length file - offset) chunk_size in
              rw (i, append_chunks)
                (let (chunk, w') = read offset n w in
                  post_chunk-Covers append (some id) offset n chunk w' _ refl (reads offset n w)
                    (λ a v.
                      append_chunks-Covers id fuel (offset + n) v p (omega arith) (omega arith)))
          | inr i ↦
              let o : length file ≤ offset + chunk_size = ground arith in
              rw (i, append_chunks) (finish_dropbox-Covers id offset w l (omega arith))
        ]

    after_start-Covers :
        (offset : ℕ) (r : Result (StorageError F) (Option Text)) (w : W)
        (o : Text → Option (Posted read post session_id))
        → ((id : Text) → Covers offset (o id))
        → Covers offset (after_start read post session_id r w o)
    after_start-Covers offset (err e) w o h = gives_up-Covers offset e w
    after_start-Covers offset (ok none) w o h = gives_up-Covers offset _ w
    after_start-Covers offset (ok (some id)) w o h = h id

    -- Let every read give a part of the file from the offset, at most as long as asked, and let the
    -- chunks not be empty. With more fuel than the file has bytes, a Dropbox upload session ends,
    -- whatever the server answers. Its requests name offsets a chunk apart, from 0 on, and their
    -- bodies are the file's parts from there, of at most a chunk; the first request opens the session,
    -- and all others name one session. When it reports success, the bodies in order are the file
    -- exactly if every read gave all that was asked for.
    pub upload_session_covers :
        (fuel : ℕ) (w : W)
        → 0 < chunk_size
        → length file < fuel
        → (s : Posted read post session_id) × (upload_session read post session_id chunk_size
              (length file)
              fuel
              w
            ≡ some s)
          × (till : ℕ) × Carry post_body Offset file chunk_size 0 s.posts till
          × (s.result ≡ ok tt
              → (Full post_body Offset file chunk_size 0 s.posts → joined post_body s.posts ≡ file)
                × (joined post_body s.posts ≡ file
                    → Full post_body Offset file chunk_size 0 s.posts))
          × Opens s.posts
    unfolding upload_session
    upload_session_covers fuel w p m =
        let n : ℕ = min (length file) chunk_size in
        let (chunk, w') = read 0 n w in
        let after : Result (StorageError F) (Option Text)
            → W
            → Option (Posted read post session_id) =
          λ r v.
            after_start read post session_id r v
              (λ id. append_chunks read post session_id id chunk_size (length file) fuel n v) in
        let (s, e, till, cs, f) =
          post_chunk-Covers start none 0 n chunk w' (λ r v. after (session_id r) v) (omega arith)
            (reads 0 n w)
            (λ a v.
              subst (λ m. Covers m (after (session_id a) v)) (omega arith)
                (after_start-Covers n (session_id a) v _
                  (λ id. append_chunks-Covers id fuel n v p (omega arith) (omega arith)))) in
        (
          s,
          e,
          till,
          cs,
          λ x. whole-Full post_body Offset file chunk_size s.posts till cs (f x),
          upload_session-Opens read post session_id chunk_size (length file) fuel w s e,
        )
