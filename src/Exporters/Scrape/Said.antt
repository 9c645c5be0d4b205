-- ===== src/Exporters/Scrape/Said.antt =====
-- What a sample of agent/src/exporters/mod.rs says of a reading, and a batch of a scrape.
use renga.Prelude.{
  some, filter, ℕ, ◌-◌, ◌≡◌, refl, Bool, true, false, ◌&&◌, not, Option, none, List, [], ◌∷◌, ◌++◌,
  any, map, ◌==◌, Result, ok, err,
}
use renga.Bytes.{Bytes, bytes_eq}
use renga.Bytes.Literals.{codes}
use renga.Exporters.Scrape.{
  Boundary, host_input, supply_input, supply_output, FetchError, Measurement, watts, state, Reading,
  TelemetrySample, boundary_name, quantity, unreadable, unread, to_sample,
}

module _ {F : Type 0} (window_ms : F → ℕ) (now : ℕ) where
  -- What a sample says of a measurement: its value or its state if there is one, and else a failure.
  pub Says : Measurement F → TelemetrySample F → Type 0
  Says (watts (some w)) s =
      (s.status ≡ codes "valid")
      × (s.value ≡ some w)
      × (s.unit ≡ some (codes "W"))
      × (s.state ≡ none)
      × (s.quantity ≡ codes "real_power")
  Says (watts none) s =
      (s.status ≡ codes "failed")
      × (s.value ≡ none)
      × (s.unit ≡ some (codes "W"))
      × (s.state ≡ none)
      × (s.quantity ≡ codes "real_power")
  Says (state (some t)) s =
      (s.status ≡ codes "valid")
      × (s.value ≡ none)
      × (s.unit ≡ none)
      × (s.state ≡ some t)
      × (s.quantity ≡ codes "state")
  Says (state none) s =
      (s.status ≡ codes "failed")
      × (s.value ≡ none)
      × (s.unit ≡ none)
      × (s.state ≡ none)
      × (s.quantity ≡ codes "state")

  pub Feeds : Option Bytes → TelemetrySample F → Type 0
  Feeds none s = s.component ≡ none
  Feeds (some name) s = s.component ≡ some (codes "power_port", name)

  -- The name of a boundary.
  pub Stands : Boundary → Bytes → Type 0
  Stands host_input name = name ≡ codes "host_input"
  Stands supply_input name = name ≡ codes "supply_input"
  Stands supply_output name = name ≡ codes "supply_output"

  boundary_name-Stands : (b : Boundary) → Stands b (boundary_name b)
  unfolding Stands
  boundary_name-Stands host_input = refl
  boundary_name-Stands supply_input = refl
  boundary_name-Stands supply_output = refl

  -- The sample is that of the reading: its place, its window and what was measured.
  pub record SampleOf (r : Reading F) (s : TelemetrySample F) : Type 0 where
    sensor : s.sensor ≡ r.sensor
    boundary : Stands r.boundary s.boundary
    component : Feeds r.supply s
    says : Says r.measurement s
    start : s.start ≡ now - window_ms r.window_seconds
    end : s.end ≡ now
    event_at : s.event_at ≡ now
    origin : s.origin ≡ codes "exporter"
    mapping : s.mapping ≡ (r.mapping, 1)

  -- The sample says that the series of the reading could not be read.
  pub record FailureOf (old : Reading F) (s : TelemetrySample F) : Type 0 where
    sensor : s.sensor ≡ old.sensor
    boundary : Stands old.boundary s.boundary
    quantity : s.quantity ≡ quantity old.measurement
    start : s.start ≡ now - window_ms old.window_seconds
    end : s.end ≡ now
    status : s.status ≡ codes "failed"
    value : s.value ≡ none
    state : s.state ≡ none

  pub Pairwise :
      (Reading F → TelemetrySample F → Type 0)
      → List (Reading F)
      → List (TelemetrySample F)
      → Type 0
  Pairwise R [] [] = Unit
  Pairwise R [] (s ∷ ss) = ⊥
  Pairwise R (r ∷ rs) [] = ⊥
  Pairwise R (r ∷ rs) (s ∷ ss) = R r s × Pairwise R rs ss

  -- Both readings are of one sensor, boundary, quantity and window.
  abbrev pub is_series : Reading F → Reading F → Bool
  is_series old new =
      bytes_eq new.sensor old.sensor
      && bytes_eq (boundary_name new.boundary) (boundary_name old.boundary)
      && bytes_eq (quantity new.measurement) (quantity old.measurement)
      && (window_ms new.window_seconds == window_ms old.window_seconds)

  abbrev pub unserved : List (Reading F) → List (Reading F) → List (Reading F)
  unserved readings known = filter (λ old. not (any (is_series old) readings)) known

  -- What was served is reported as it was served, in its order; then each series that was known and is
  -- served no more as a failure. Where nothing could be fetched, all that was known is a failure.
  unfoldable pub IsTruthful :
      Result (List (Reading F)) FetchError → List (Reading F) → List (TelemetrySample F) → Type 0
  IsTruthful (ok readings) known samples =
      (served : List (TelemetrySample F)) × (rest : List (TelemetrySample F)) × (samples
        ≡ served ++ rest)
      × Pairwise SampleOf readings served
      × Pairwise FailureOf (unserved readings known) rest
  IsTruthful (err _) known samples = Pairwise FailureOf known samples

  -- A sample of what cannot be read has no value.
  pub failed-sample : (r : Reading F) → FailureOf r (to_sample window_ms true now r)
  unfolding to_sample
  failed-sample r = record {
    sensor = refl;
    boundary = boundary_name-Stands r.boundary;
    quantity = refl;
    start = refl;
    end = refl;
    status = refl;
    value = refl;
    state = refl;
  }

  unread-sample : (r : Reading F) → FailureOf r (to_sample window_ms false now (unread r))
  unfolding to_sample unreadable quantity
  unread-sample r = go r.measurement
    where
      go :
          (m : Measurement F)
          → FailureOf
              (record r { measurement = m })
              (to_sample window_ms false now (record r { measurement = unreadable m }))
      go (watts w) = record {
        sensor = refl;
        boundary = boundary_name-Stands r.boundary;
        quantity = refl;
        start = refl;
        end = refl;
        status = refl;
        value = refl;
        state = refl;
      }
      go (state t) = record {
        sensor = refl;
        boundary = boundary_name-Stands r.boundary;
        quantity = refl;
        start = refl;
        end = refl;
        status = refl;
        value = refl;
        state = refl;
      }

  to_sample-Says : (r : Reading F) → Says r.measurement (to_sample window_ms false now r)
  unfolding to_sample quantity Says
  to_sample-Says r = go r.measurement
    where
      go :
          (m : Measurement F)
          → Says m (to_sample window_ms false now (record r { measurement = m }))
      go (watts (some w)) = (refl, refl, refl, refl, refl)
      go (watts none) = (refl, refl, refl, refl, refl)
      go (state (some t)) = (refl, refl, refl, refl, refl)
      go (state none) = (refl, refl, refl, refl, refl)

  to_sample-Feeds : (r : Reading F) → Feeds r.supply (to_sample window_ms false now r)
  unfolding to_sample Feeds
  to_sample-Feeds r = go r.supply
    where
      go :
          (supply : Option Bytes)
          → Feeds supply (to_sample window_ms false now (record r { supply = supply }))
      go none = refl
      go (some name) = refl

  pub served-sample : (r : Reading F) → SampleOf r (to_sample window_ms false now r)
  unfolding to_sample
  served-sample r = record {
    sensor = refl;
    boundary = boundary_name-Stands r.boundary;
    component = to_sample-Feeds r;
    says = to_sample-Says r;
    start = refl;
    end = refl;
    event_at = refl;
    origin = refl;
    mapping = refl;
  }

  pub map-Pairwise :
      (R : Reading F → TelemetrySample F → Type 0) (f : Reading F → TelemetrySample F)
      → ((r : Reading F) → R r (f r))
      → (rs : List (Reading F)) → Pairwise R rs (map f rs)
  unfolding Pairwise
  map-Pairwise R f h [] = tt
  map-Pairwise R f h (r ∷ rs) = (h r, map-Pairwise R f h rs)

  pub unread-samples :
      (rs : List (Reading F))
      → Pairwise FailureOf rs (map (to_sample window_ms false now) (map unread rs))
  unfolding Pairwise
  unread-samples [] = tt
  unread-samples (r ∷ rs) = (unread-sample r, unread-samples rs)
