-- ===== src/Exporters/Scrape.antt =====
-- What a scrape of an exporter reports: `scrape` and what it calls in agent/src/exporters/mod.rs,
-- `Reading` and `Measurement` of mapping.rs beside it, `PowerSources` of agent/src/power/mod.rs, and
-- the telemetry of agent/src/payload.rs.
--
-- `F` is the type of floating-point numbers, `window_ms` the cast of a number of seconds to whole
-- milliseconds, and `json_size` the length of what `serde_json` writes for a batch, or `none`. Times
-- are in milliseconds.
pub mod Said
pub mod Truthful
mod Examples
use renga.Prelude.{
  ℕ, ◌+◌, ◌-◌, ◌*◌, Bool, true, false, ◌&&◌, ◌||◌, not, Option, none, some, List, [], is_empty, ◌∷◌,
  ◌++◌, any, map, filter, leb, ◌==◌, if◌then◌else◌, Result, ok, err,
}
use renga.Bytes.{Bytes, bytes_eq}
use renga.Bytes.Literals.{codes}
use renga.Bytes.Dictionary.{Dictionary, insert}

pub data Boundary : Type 0 where
  host_input supply_input supply_output : Boundary

abbrev pub boundary_name : Boundary → Bytes
boundary_name host_input = codes "host_input"
boundary_name supply_input = codes "supply_input"
boundary_name supply_output = codes "supply_output"

pub data FetchError : Type 0 where
  not_permitted fetch_failed : FetchError

abbrev pub max_telemetry_bytes : ℕ
max_telemetry_bytes = 512000

module _ (F : Type 0) where
  pub data Measurement : Type 0 where
    watts : Option F → Measurement
    state : Option Bytes → Measurement

  pub record Reading : Type 0 where
    pub mapping : Bytes
    pub sensor : Bytes
    pub boundary : Boundary
    pub supply : Option Bytes
    pub measurement : Measurement
    pub window_seconds : F

  pub record TelemetrySample : Type 0 where
    pub target : Option Bytes
    pub sensor : Bytes
    pub boundary : Bytes
    pub quantity : Bytes
    pub unit : Option Bytes
    pub component : Option (Bytes × Bytes)
    pub leg : Option Bytes
    pub coverage : Option Bytes
    pub status : Bytes
    pub origin : Bytes
    pub value : Option F
    pub state : Option Bytes
    pub start : ℕ
    pub end : ℕ
    pub event_at : ℕ
    pub mapping : Bytes × ℕ
    pub fresh_for_seconds : ℕ

  pub record TelemetryBatch : Type 0 where
    pub version : ℕ
    pub replay_id : ℕ
    pub samples : List TelemetrySample

  -- `sent` is what the sink was given.
  pub record Scraper : Type 0 where
    pub known : List Reading
    pub sources : Dictionary
    pub sent : List TelemetryBatch

abbrev pub is_some : {A : Type 0} → Option A → Bool
is_some none = false
is_some (some _) = true

module _ {F : Type 0} where
  unfoldable pub quantity : Measurement F → Bytes
  quantity (watts _) = codes "real_power"
  quantity (state _) = codes "state"

  unfoldable pub unreadable : Measurement F → Measurement F
  unreadable (watts _) = watts none
  unreadable (state _) = state none

  abbrev pub unread : Reading F → Reading F
  unread old = record old { measurement = unreadable old.measurement }

  -- Unit, value and state of a sample.
  abbrev pub parts : Measurement F → Option Bytes × Option F × Option Bytes
  parts (watts w) = (some (codes "W"), w, none)
  parts (state s) = (none, none, s)

  module _ (window_ms : F → ℕ) where
    unfoldable pub same_series : Reading F → Reading F → Bool
    same_series new old =
        bytes_eq new.sensor old.sensor
        && bytes_eq (boundary_name new.boundary) (boundary_name old.boundary)
        && bytes_eq (quantity new.measurement) (quantity old.measurement)
        && (window_ms new.window_seconds == window_ms old.window_seconds)

    unfoldable pub to_sample : Bool → ℕ → Reading F → TelemetrySample F
    to_sample failed now reading =
        let (unit, value, condition) = parts reading.measurement in
        let readable = is_some value || is_some condition in
        let is_valid = not (failed || not readable) in
        record {
          target = none;
          sensor = reading.sensor;
          boundary = boundary_name reading.boundary;
          quantity = quantity reading.measurement;
          unit = unit;
          component = elim reading.supply [
            | none ↦ none
            | some name ↦ some (codes "power_port", name)
          ];
          leg = none;
          coverage = none;
          status = if is_valid then codes "valid" else codes "failed";
          origin = codes "exporter";
          value = if is_valid then value else none;
          state = if is_valid then condition else none;
          start = now - window_ms reading.window_seconds;
          end = now;
          event_at = now;
          mapping = (reading.mapping, 1);
          fresh_for_seconds = 300;
        }

    unfoldable pub batch : ℕ → List (Reading F) → Bool → ℕ → TelemetryBatch F
    batch replay_id readings failed now = record {
      version = 1;
      replay_id = replay_id;
      samples = map (to_sample failed now) readings;
    }

    -- The series that were known and are served no more.
    unfoldable pub gone : List (Reading F) → List (Reading F) → List (Reading F)
    gone known readings =
        map unread (filter (λ old. not (any (λ new. same_series new old) readings)) known)

    -- The readings of a scrape, whether they are failed ones, the status of the source and what is known
    -- from then on.
    unfoldable pub judge :
        List (Reading F)
        → Result (List (Reading F)) FetchError
        → List (Reading F) × Bool × Bytes × List (Reading F)
    judge known (ok readings) = (
      readings ++ gone known readings,
      false,
      elim readings [ [] ↦ codes "not_present" | _ ∷ _ ↦ codes "available" ],
      readings,
    )
    judge known (err not_permitted) = (known, true, codes "not_permitted", known)
    judge known (err fetch_failed) = (known, true, codes "unreachable", known)

    abbrev pub fits : Option ℕ → Bool
    fits none = false
    fits (some size) = leb size max_telemetry_bytes

    module _ (json_size : TelemetryBatch F → Option ℕ) where
      unfoldable pub send : TelemetryBatch F → Scraper F → Scraper F
      send b s = if fits (json_size b) then record s { sent = s.sent ++ b ∷ [] } else s

      unfoldable pub scrape :
          Bytes → ℕ → ℕ → Result (List (Reading F)) FetchError → Scraper F → Scraper F
      scrape source replay_id now result s =
          let (readings, unread_all, status, known) = judge s.known result in
          let published : Scraper F = record s {
            known = known;
            sources = insert source status s.sources;
          } in
          if is_empty readings
          then published
          else send (batch replay_id readings unread_all now) published
