-- ===== src/Exporters/Scrape/Truthful.antt =====
-- A scrape never reports what the exporter did not serve, and forgets no series it has reported.
use renga.Prelude.{
  ℕ, ◌-◌, ◌≡◌, refl, sym, ap, ◌∙◌, Bool, true, false, ◌&&◌, not, Option, List, [], ◌∷◌, ◌++◌,
  is_empty, any, any-append, map_append, any_map, filter_found, or_right, All-map, map, ◌==◌, All,
  if◌then◌else◌, Result, ok, err, inl, inr, arith,
}
use renga.Bytes.{Bytes, bytes_eq}
use renga.Bytes.Equality.{bytes_eq_refl}
use renga.Bytes.Dictionary.{insert}
use renga.Exporters.Scrape.{
  FetchError, not_permitted, fetch_failed, Measurement, watts, state, Reading, TelemetrySample,
  TelemetryBatch, Scraper, boundary_name, quantity, unreadable, unread, same_series, to_sample,
  batch, gone, judge, fits, send, scrape,
}
use renga.Exporters.Scrape.Said.{
  SampleOf, FailureOf, unserved, IsTruthful, failed-sample, served-sample, map-Pairwise,
  unread-samples,
}

module _ {F : Type 0} (window_ms : F → ℕ) (now : ℕ) where
  -- The sample is of the series of the reading.
  abbrev pub is_about : Reading F → TelemetrySample F → Bool
  is_about old sample =
      bytes_eq sample.sensor old.sensor
      && bytes_eq sample.boundary (boundary_name old.boundary)
      && bytes_eq sample.quantity (quantity old.measurement)
      && (sample.start == now - window_ms old.window_seconds)

  same_series-is_about :
      (broken : Bool) (new old : Reading F)
      → same_series window_ms new old ≡ true
      → is_about old (to_sample window_ms broken now new) ≡ true
  unfolding same_series to_sample
  same_series-is_about broken new old h = ground arith

  same_series_refl : (r : Reading F) → same_series window_ms r r ≡ true
  unfolding same_series
  same_series_refl r = ground (
    arith,
    bytes_eq_refl r.sensor,
    bytes_eq_refl (boundary_name r.boundary),
    bytes_eq_refl (quantity r.measurement),
  )

  quantity-unreadable : (m : Measurement F) → quantity (unreadable m) ≡ quantity m
  unfolding quantity unreadable
  quantity-unreadable (watts w) = refl
  quantity-unreadable (state t) = refl

  same_series-unread : (r : Reading F) → same_series window_ms (unread r) r ≡ true
  unfolding same_series
  same_series-unread r = rw (quantity-unreadable r.measurement) (same_series_refl r)

  -- What was known is reported: as it was served, or as a failure.
  reported-failed :
      (xs ys : List (Reading F))
      → All (λ old. any (λ new. same_series window_ms new old) ys ≡ true) xs
      → All (λ old. any (is_about old) (map (to_sample window_ms true now) ys) ≡ true) xs
  reported-failed xs ys =
      All-map
        (λ old h.
          any_map (λ new. same_series window_ms new old) (is_about old)
            (to_sample window_ms true now) (λ new k. same_series-is_about true new old k) ys h)
        xs

  itself :
      (xs : List (Reading F)) → All (λ old. any (λ new. same_series window_ms new old) xs ≡ true) xs
  itself [] = tt
  itself (x ∷ xs) =
      (ground (arith, same_series_refl x), All-map (λ old h. ground arith) xs (itself xs))

  reported-gone :
      (known readings : List (Reading F))
      → All
          (λ old.
            any
              (is_about old)
              (map (to_sample window_ms false now) (readings ++ gone window_ms known readings))
            ≡ true)
          known
  unfolding gone
  reported-gone known readings =
      All-map
        (λ old found.
          any_map (same old) (is_about old) (to_sample window_ms false now)
            (λ new k. same_series-is_about false new old k) (readings ++ missing)
            (any-append (same old) readings missing ∙ elim found [
              | inl served ↦ ground arith
              | inr missed ↦ or_right _ (
                  any_map (λ kept. same_series window_ms (unread kept) old) (same old) unread
                    (λ _ k. k) _ missed)
            ]))
        known
        (filter_found (λ old. not (any (same old) readings))
          (λ old kept. same_series window_ms (unread kept) old) same_series-unread known)
    where
      same : Reading F → Reading F → Bool
      same old new = same_series window_ms new old

      missing : List (Reading F)
      missing = gone window_ms known readings

  -- What a scrape makes of a result: the samples are truthful, and no series that was known is left out.
  judged :
      (known : List (Reading F)) (result : Result (List (Reading F)) FetchError)
      → let (readings, broken, _, _) = judge window_ms known result in
        let samples = map (to_sample window_ms broken now) readings in
        IsTruthful window_ms now result known samples
        × All (λ old. any (is_about old) samples ≡ true) known
  unfolding judge gone same_series IsTruthful
  judged known (ok readings) = (
    (
      map (to_sample window_ms false now) readings,
      map (to_sample window_ms false now) (gone window_ms known readings),
      map_append (to_sample window_ms false now) readings (gone window_ms known readings),
      map-Pairwise window_ms now (SampleOf window_ms now) _ (served-sample window_ms now) readings,
      unread-samples window_ms now (unserved window_ms now readings known),
    ),
    reported-gone known readings,
  )
  judged known (err not_permitted) = (
    map-Pairwise window_ms now (FailureOf window_ms now) _ (failed-sample window_ms now) known,
    reported-failed known known (itself known),
  )
  judged known (err fetch_failed) = (
    map-Pairwise window_ms now (FailureOf window_ms now) _ (failed-sample window_ms now) known,
    reported-failed known known (itself known),
  )

  known_after :
      (known : List (Reading F)) (result : Result (List (Reading F)) FetchError)
      → (judge window_ms known result).3 ≡ (elim result [ ok readings ↦ readings | err _ ↦ known ])
  unfolding judge
  known_after known (ok readings) = refl
  known_after known (err not_permitted) = refl
  known_after known (err fetch_failed) = refl

settled :
    {F : Type 0} (empty fitting : Bool) (b : TelemetryBatch F) (p : Scraper F)
    → let q = if empty then p else if fitting then record p { sent = p.sent ++ b ∷ [] } else p in
      (q.sent ≡ (if not empty && fitting then p.sent ++ b ∷ [] else p.sent)) × (q.known ≡ p.known)
settled true fitting b p = (refl, refl)
settled false true b p = (refl, refl)
settled false false b p = (refl, refl)

is_empty-map : {A B : Type 0} (f : A → B) (xs : List A) → is_empty (map f xs) ≡ is_empty xs
is_empty-map f [] = refl
is_empty-map f (x ∷ xs) = refl

-- A scrape makes one batch. If the exporter served readings, the batch has for each of them, in order,
-- a valid sample with its value or state and its place and window, or one that is marked as failed
-- if the reading has neither; then for each series that was known and is not served a sample that is
-- marked as failed and has no value. If nothing could be fetched, it has such a failed sample for
-- each series that was known, and no other. So every series that was known is among them. The batch
-- is sent exactly if it is not empty and its JSON is within the limit. After a scrape that succeeded
-- the series that it served are known, after one that failed those that were before.
pub scrape-IsTruthful :
    {F : Type 0} (window_ms : F → ℕ) (json_size : TelemetryBatch F → Option ℕ) (source : Bytes)
    (replay_id now : ℕ) (result : Result (List (Reading F)) FetchError) (s : Scraper F)
    → let p = scrape window_ms json_size source replay_id now result s in
      (b : TelemetryBatch F) × IsTruthful window_ms now result s.known b.samples
      × All (λ old. any (is_about window_ms now old) b.samples ≡ true) s.known
      × (p.sent ≡ (
          if not (is_empty b.samples) && fits window_ms (json_size b)
          then s.sent ++ b ∷ []
          else s.sent))
      × (p.known ≡ (elim result [ ok readings ↦ readings | err _ ↦ s.known ]))
unfolding scrape batch send
scrape-IsTruthful {F = F} window_ms json_size source replay_id now result s =
    let (readings, broken, status, known) = judge window_ms s.known result in
    let b = batch window_ms replay_id readings broken now in
    let (truthful, complete) = judged window_ms now s.known result in
    let published : Scraper F = record s {
      known = known;
      sources = insert source status s.sources;
    } in
    let (sent, kept) = settled (is_empty readings) (fits window_ms (json_size b)) b published in
    (
      b,
      truthful,
      complete,
      sent
          ∙ ap (λ e. if not e && fits window_ms (json_size b) then s.sent ++ b ∷ [] else s.sent)
              (sym (is_empty-map (to_sample window_ms broken now) readings)),
      kept ∙ known_after window_ms now s.known result,
    )
