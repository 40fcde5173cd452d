-- ===== src/Layers/Metrics/Observe.antt =====
-- The metrics layer of crates/cloud_sync_lib/src/layers/metrics.rs observes and does not interfere.
use cloud_sync_lib.Base.{
  ℕ, suc, ◌+◌, ◌^◌, ◌<◌, ◌≡◌, refl, ap, ◌∙◌, Option, List, [], ◌∷◌, arith, unwrap_or,
}
use cloud_sync_lib.Base.Text.{Text}
use cloud_sync_lib.Storage.Errors.{Foreign, StorageError, Result, ok, err}
use cloud_sync_lib.Providers.Backend.{Backend, Call}
use cloud_sync_lib.Layers.Metrics.{
  StorageMetrics, Metered, metrics_backend, counted, passed, Operation, upload, download, rename,
  copy, delete, list, create_folder, CallEnd, listed, is_done, end_of, perform, perform_all,
  count_uploaded, count_downloaded, count_deleted, count_listed, no_metrics,
}

-- How many calls of a sequence are counted: transfers, deletions and listings.
abbrev pub counted_calls : List Operation → ℕ
counted_calls [] = 0
counted_calls (upload l r ∷ os) = suc (counted_calls os)
counted_calls (download r l ∷ os) = suc (counted_calls os)
counted_calls (rename a b ∷ os) = counted_calls os
counted_calls (copy a b ∷ os) = counted_calls os
counted_calls (delete r ∷ os) = suc (counted_calls os)
counted_calls (list r ∷ os) = suc (counted_calls os)
counted_calls (create_folder r ∷ os) = counted_calls os

abbrev pub total : StorageMetrics → ℕ
total m = m.upload_count + m.download_count + m.delete_count + m.list_count + m.error_count

counted_calls-cons :
    (o : Operation) (os : List Operation)
    → counted_calls (o ∷ os) ≡ counted_calls (o ∷ []) + counted_calls os
counted_calls-cons (upload l r) os = omega arith
counted_calls-cons (download r l) os = omega arith
counted_calls-cons (rename x y) os = omega arith
counted_calls-cons (copy x y) os = omega arith
counted_calls-cons (delete r) os = omega arith
counted_calls-cons (list r) os = omega arith
counted_calls-cons (create_folder r) os = omega arith

module _ {F : Foreign} {W Session : Type 0} (file_size : Text → W → Option ℕ)
    (b : Backend F W Session) where
  -- A call through the layer ends as the call of the backend, leaves the same world behind, and
  -- raises the counters by so much together.
  pub record Observes (raised : ℕ) (m : Metered W) (plain : CallEnd F × W)
      (seen : CallEnd F × Metered W) : Type 0 where
    pub same_end : seen.0 ≡ plain.0
    pub same_world : seen.1.inner ≡ plain.1
    pub counted_once :
        total m.metrics + raised < 2 ^ 64 → total seen.1.metrics ≡ total m.metrics + raised

  counted-Observes :
      {A : Type 0} (show : A → CallEnd F) (count : W → W → StorageMetrics → StorageMetrics)
      (call : Call F W A) (m : Metered W)
      → ((w w' : W) (c : StorageMetrics)
          → total c + 1 < 2 ^ 64
          → total (count w w' c) ≡ total c + 1)
      → (r : Result (StorageError F) A × W) → call m.inner ≡ r
      → Observes 1 m (end_of show r) (end_of show (counted count call m))
  counted-Observes show count call m h (ok a, w) e =
      rw e (record { same_end = refl; same_world = refl; counted_once = h m.inner w m.metrics })
  counted-Observes show count call m h (err x, w) e =
      rw e (record { same_end = refl; same_world = refl; counted_once = λ l. omega arith })

  passed-Observes :
      {A : Type 0} (show : A → CallEnd F) (call : Call F W A) (m : Metered W)
      (r : Result (StorageError F) A × W)
      → call m.inner ≡ r
      → Observes 0 m (end_of show r) (end_of show (passed call m))
  passed-Observes show call m (ok a, w) e =
      rw e (record { same_end = refl; same_world = refl; counted_once = λ l. omega arith })
  passed-Observes show call m (err x, w) e =
      rw e (record { same_end = refl; same_world = refl; counted_once = λ l. omega arith })

  perform-Observes :
      (o : Operation) (m : Metered W)
      → Observes
          (counted_calls (o ∷ []))
          m
          (perform b o m.inner)
          (perform (metrics_backend file_size b) o m)
  unfolding metrics_backend
  perform-Observes (upload l r) m =
      counted-Observes is_done (λ w w'. count_uploaded (unwrap_or (file_size l w) 0)) (b.upload l r)
        m (λ w w' c h. omega arith) _ refl
  perform-Observes (download r l) m =
      counted-Observes is_done (λ w w'. count_downloaded (unwrap_or (file_size l w') 0))
        (b.download r l) m (λ w w' c h. omega arith) _ refl
  perform-Observes (rename x y) m = passed-Observes is_done (b.rename x y) m _ refl
  perform-Observes (copy x y) m = passed-Observes is_done (b.copy x y) m _ refl
  perform-Observes (delete r) m =
      counted-Observes is_done (λ w w'. count_deleted) (b.delete r) m (λ w w' c h. omega arith) _
        refl
  perform-Observes (list r) m =
      counted-Observes listed (λ w w'. count_listed) (b.list r) m (λ w w' c h. omega arith) _ refl
  perform-Observes (create_folder r) m = passed-Observes is_done (b.create_folder r) m _ refl

  perform_all-Observes :
      (os : List Operation) (m : Metered W)
      → ((perform_all (metrics_backend file_size b) os m).0 ≡ (perform_all b os m.inner).0)
        × ((perform_all (metrics_backend file_size b) os m).1.inner ≡ (perform_all b os m.inner).1)
        × (total m.metrics + counted_calls os < 2 ^ 64
            → total (perform_all (metrics_backend file_size b) os m).1.metrics
              ≡ total m.metrics + counted_calls os)
  unfolding perform_all
  perform_all-Observes [] m = (refl, refl, λ l. omega arith)
  perform_all-Observes (o ∷ os) m =
      let one = perform-Observes o m in
      let m1 = (perform (metrics_backend file_size b) o m).1 in
      let (ends, world, count) = perform_all-Observes os m1 in
      let n = counted_calls-cons o os in
      (
        ap (λ e. e ∷ (perform_all (metrics_backend file_size b) os m1).0) one.same_end
            ∙ ap (λ es. (perform b o m.inner).0 ∷ es)
                (ends ∙ ap (λ w. (perform_all b os w).0) one.same_world),
        world ∙ ap (λ w. (perform_all b os w).1) one.same_world,
        λ l. let c1 = one.counted_once (omega arith) in let c2 = count (omega arith) in omega arith,
      )

  -- With fewer than 2^64 counted calls, every sequence of calls gives the client the same successes,
  -- listings and errors through the layer as without it, and leaves the same world; and from new
  -- counters on, the counters of successes and of errors together are the number of transfers,
  -- deletions and listings.
  pub metrics_observe :
      (os : List Operation) (w : W)
      → counted_calls os < 2 ^ 64
      → let seen =
          perform_all
            (metrics_backend file_size b)
            os
            (record { metrics = no_metrics; inner = w }) in
        (seen.0 ≡ (perform_all b os w).0)
        × (seen.1.inner ≡ (perform_all b os w).1)
        × (total seen.1.metrics ≡ counted_calls os)
  metrics_observe os w l =
      let (ends, world, count) =
        perform_all-Observes os (record { metrics = no_metrics; inner = w }) in
      let c = count (omega arith) in (ends, world, omega arith)
