-- ===== src/Exporters/Scrape/Examples.antt =====
-- An exporter whose one series disappears, or is replaced by another; a number is its own floating-point number.
use renga.Prelude.{
  ℕ, ◌*◌, ◌≡◌, refl, true, ◌&&◌, not, Option, none, some, List, [], ◌∷◌, ◌++◌, any, map, is_empty,
  if◌then◌else◌, All, Result, ok, err,
}
use renga.Bytes.Literals.{codes}
use renga.Exporters.Scrape.{
  FetchError, Reading, watts, host_input, TelemetryBatch, Scraper, fits, scrape, judge, batch, send,
  gone, same_series, to_sample, quantity, unreadable,
}
use renga.Exporters.Scrape.Said.{IsTruthful}
use renga.Exporters.Scrape.Truthful.{is_about, scrape-IsTruthful}

abbrev window : ℕ → ℕ
window seconds = seconds * 1000

abbrev dcmi : Reading ℕ
dcmi = record {
  mapping = codes "ipmi_exporter";
  sensor = codes "ipmi_exporter/h:9290/dcmi";
  boundary = host_input;
  supply = none;
  measurement = watts (some 151);
  window_seconds = 0;
}

abbrev before : Scraper ℕ
before = record { known = dcmi ∷ []; sources = []; sent = [] }

abbrev small : TelemetryBatch ℕ → Option ℕ
small _ = some 400

abbrev nothing : Result (List (Reading ℕ)) FetchError
nothing = ok []

-- The watts are not repeated.
vanished :
    map
      (λ b. map (λ s. s.value) b.samples)
      (scrape window small (codes "h") 1 90000 nothing before).sent
    ≡ ((none ∷ []) ∷ [])
unfolding scrape judge batch send gone same_series to_sample quantity unreadable
vanished = refl

-- Another series is served, and the known one no more.
abbrev another : Result (List (Reading ℕ)) FetchError
another = ok (record dcmi { sensor = codes "ipmi_exporter/h:9290/psu" } ∷ [])

scrape-IsTruthful_example :
    let p = scrape window small (codes "h") 1 90000 another before in
    (b : TelemetryBatch ℕ) × IsTruthful window 90000 another before.known b.samples
    × All (λ old. any (is_about window 90000 old) b.samples ≡ true) before.known
    × (p.sent ≡ (
        if not (is_empty b.samples) && fits window (small b)
        then before.sent ++ b ∷ []
        else before.sent))
    × (p.known ≡ (elim another [ ok readings ↦ readings | err _ ↦ before.known ]))
scrape-IsTruthful_example = scrape-IsTruthful window small (codes "h") 1 90000 another before
