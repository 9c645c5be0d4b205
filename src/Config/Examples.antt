-- ===== src/Config/Examples.antt =====
-- A configuration that says little, one whose URL is refused, and two sections that share an id.
use renga.Prelude.{◌≡◌, refl, false, Option, none, some, List, [], ◌∷◌, ok, err}
use renga.Bytes.{Bytes, bytes_eq}
use renga.Bytes.Literals.{codes}
use renga.Config.{
  url_not_https, id_used_twice, Collector, Parsers, RawConfig, Config, required, duration,
  checkin_duration, trim_slashes, server_url, retry_attempts, timeout, valid_label_key,
  check_labels, validate_labels, job_policy, collect, from_raw,
}
use renga.Config.Valid.{IsValid, from_raw-IsValid}
use renga.Smbios.Text.{trim, trim_start, space}
use renga.Queries.Bounded.{count_chars}

-- A section is the ids of its collectors.
abbrev modules : List Bytes → List (Collector (List Bytes) (List Bytes))
modules [] = []
modules (id ∷ ids) = record { id = id; settings = [] } ∷ modules ids

abbrev parsers : Parsers (List Bytes) (List Bytes)
parsers = record {
  snmp = λ s. ok (modules s);
  gnmi = λ s. ok (modules s);
  libvirt = λ _. ok none;
  power = λ s. ok (modules s);
  bmc = λ s. ok (modules s);
  exporters = ok;
  osquery = ok;
}

abbrev raw : RawConfig (List Bytes) (List Bytes)
raw = record {
  renga_url = some (codes "https://r/");
  allow_insecure_http = none;
  intake_api_key = some (codes "k");
  installation_id = none;
  inventory_interval_seconds = none;
  checkin_interval_seconds = some 30;
  config_refresh_interval_seconds = none;
  request_timeout_seconds = none;
  max_retry_attempts = none;
  labels = some ((codes "team", codes "storage") ∷ []);
  jobs = none;
  snmp = codes "a" ∷ [];
  gnmi = codes "b" ∷ [];
  libvirt = [];
  power = [];
  bmc = [];
  exporters = [];
  osquery = [];
}

abbrev identity : Option Bytes → Option Bytes
identity _ = some (codes "id")

abbrev config : Config (List Bytes) (List Bytes)
config = record {
  renga_url = codes "https://r";
  allow_insecure_http = false;
  intake_api_key = codes "k";
  installation_id = codes "id";
  inventory_interval = 3600;
  checkin_interval = 30;
  config_refresh_interval = 300;
  request_timeout = 20;
  max_retry_attempts = 5;
  labels = (codes "team", codes "storage") ∷ [];
  jobs = record { enabled = none };
  collectors = record {
    snmp = modules (codes "a" ∷ []);
    gnmi = modules (codes "b" ∷ []);
    libvirt = none;
    power = [];
    bmc = [];
  };
  exporters = [];
  osquery = [];
}

accepted : from_raw parsers identity raw ≡ ok config
unfolding from_raw collect required duration checkin_duration trim_slashes server_url retry_attempts
    timeout valid_label_key check_labels validate_labels job_policy count_chars trim trim_start
    space bytes_eq
accepted = refl

from_raw-IsValid_example : IsValid config
from_raw-IsValid_example = from_raw-IsValid parsers identity raw config accepted

insecure :
    from_raw parsers identity (record raw { renga_url = some (codes "http://r") })
    ≡ err url_not_https
unfolding from_raw server_url required trim_slashes trim trim_start space
insecure = refl

shared_id : from_raw parsers identity (record raw { power = codes "b" ∷ [] }) ≡ err id_used_twice
unfolding from_raw collect required duration trim_slashes server_url retry_attempts timeout
    valid_label_key check_labels validate_labels job_policy count_chars trim trim_start space
    bytes_eq
shared_id = refl
