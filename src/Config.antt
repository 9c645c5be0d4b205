-- ===== src/Config.antt =====
-- The validation of the configuration: agent/src/config.rs, `from_raw` and what it calls.
--
-- `R` is a section of a collector as TOML has it and `S` its settings; `Parsers` are the `from_raw` of
-- these sections in their own files, and `identity` is `identity::load_or_create`. Durations are in
-- seconds. What `load` reads and takes from the environment is the argument `raw`.
mod Fields
pub mod Streams
pub mod Valid
mod Examples
unfoldable pub use Fields.*
use renga.Prelude.{
  ℕ, zero, suc, Bool, true, false, ◌&&◌, ◌||◌, not, Option, none, some, List, is_empty, [], ◌∷◌,
  ◌++◌, any, all, ltb, leb, ◌==◌, if◌then◌else◌, length, Result, ok, err, chain, ensure, ok_or,
}
use renga.Bytes.{Bytes, bytes_eq}
use renga.Bytes.Literals.{codes}
use renga.Bytes.Dictionary.{Dictionary}
use renga.Smbios.Text.{trim, between}
use renga.Exporters.Text.{is_ascii_alphabetic}
use renga.Queries.Statement.{starts}
use renga.Queries.Bounded.{count_chars}
use renga.Jobs.Catalog.{Selector, parse_selector, JobPolicy}

module _ (R S : Type 0) where
  pub record Collector : Type 0 where
    pub id : Bytes
    pub settings : S

  -- The other files' `from_raw`.
  pub record Parsers : Type 0 where
    pub snmp : R → Result (List Collector) ConfigError
    pub gnmi : R → Result (List Collector) ConfigError
    pub libvirt : R → Result (Option Collector) ConfigError
    pub power : R → Result (List Collector) ConfigError
    pub bmc : R → Result (List Collector) ConfigError
    pub exporters : R → Result S ConfigError
    pub osquery : R → Result S ConfigError

  pub record Collectors : Type 0 where
    pub snmp : List Collector
    pub gnmi : List Collector
    pub libvirt : Option Collector
    pub power : List Collector
    pub bmc : List Collector

  pub record RawConfig : Type 0 where
    pub renga_url : Option Bytes
    pub allow_insecure_http : Option Bool
    pub intake_api_key : Option Bytes
    pub installation_id : Option Bytes
    pub inventory_interval_seconds : Option ℕ
    pub checkin_interval_seconds : Option ℕ
    pub config_refresh_interval_seconds : Option ℕ
    pub request_timeout_seconds : Option ℕ
    pub max_retry_attempts : Option ℕ
    pub labels : Option Dictionary
    pub jobs : Option (List Bytes)
    pub snmp : R
    pub gnmi : R
    pub libvirt : R
    pub power : R
    pub bmc : R
    pub exporters : R
    pub osquery : R

  pub record Config : Type 0 where
    pub renga_url : Bytes
    pub allow_insecure_http : Bool
    pub intake_api_key : Bytes
    pub installation_id : Bytes
    pub inventory_interval : ℕ
    pub checkin_interval : ℕ
    pub config_refresh_interval : ℕ
    pub request_timeout : ℕ
    pub max_retry_attempts : ℕ
    pub labels : Dictionary
    pub jobs : JobPolicy
    pub collectors : Collectors
    pub exporters : S
    pub osquery : S

module _ {R S : Type 0} where
  abbrev pub uses : Bytes → List (Collector R S) → Bool
  uses id collectors = any (λ c. bytes_eq c.id id) collectors

  abbrev pub is_libvirt : Option (Collector R S) → Bytes → Bool
  is_libvirt none id = false
  is_libvirt (some l) id = bytes_eq l.id id

  abbrev pub check_libvirt :
      List (Collector R S)
      → List (Collector R S)
      → Option (Collector R S)
      → Result (Unit {0}) ConfigError
  check_libvirt snmp gnmi none = ok tt
  check_libvirt snmp gnmi (some l) =
      chain (ensure (not (uses l.id snmp)) id_used_twice)
        λ _. ensure (not (uses l.id gnmi)) id_used_twice

  -- The collectors' sections, each checked against the ids of those before it.
  unfoldable pub collect : Parsers R S → RawConfig R S → Result (Collectors R S) ConfigError
  collect parsers raw = chain (parsers.snmp raw.snmp) λ snmp. chain (parsers.gnmi raw.gnmi) λ gnmi.
      chain (ensure (not (any (λ c. uses c.id snmp) gnmi)) id_used_twice) λ _.
        chain (parsers.libvirt raw.libvirt) λ libvirt. chain (check_libvirt snmp gnmi libvirt) λ _.
          chain (parsers.power raw.power) λ power.
            chain
              (ensure
                (not (any (λ c. uses c.id snmp || uses c.id gnmi || is_libvirt libvirt c.id) power))
                id_used_twice)
              λ _. chain (parsers.bmc raw.bmc) λ bmc.
                chain
                  (ensure
                    (not (
                      any
                        (λ c.
                          uses c.id (snmp ++ power) || uses c.id gnmi || is_libvirt libvirt c.id)
                        bmc))
                    id_used_twice)
                  λ _. ok (record {
                    snmp = snmp;
                    gnmi = gnmi;
                    libvirt = libvirt;
                    power = power;
                    bmc = bmc;
                  })

  unfoldable pub from_raw :
      Parsers R S → (Option Bytes → Option Bytes) → RawConfig R S → Result (Config R S) ConfigError
  from_raw parsers identity raw =
      let insecure = unwrap_or false raw.allow_insecure_http in
      chain (ok_or (identity raw.installation_id) no_identity) λ installation_id.
        chain (server_url insecure raw.renga_url) λ url.
          chain (retry_attempts raw.max_retry_attempts) λ attempts.
            chain (timeout raw.request_timeout_seconds) λ request_timeout.
              chain (validate_labels (unwrap_or [] raw.labels)) λ labels.
                chain (job_policy raw.jobs) λ jobs. chain (collect parsers raw) λ collectors.
                  chain (required raw.intake_api_key key_required) λ key.
                    chain (duration raw.inventory_interval_seconds inventory_default) λ inventory.
                      chain (checkin_duration raw.checkin_interval_seconds) λ checkin.
                        chain (duration raw.config_refresh_interval_seconds refresh_default)
                          λ refresh. chain (parsers.exporters raw.exporters) λ exporters.
                            chain (parsers.osquery raw.osquery) λ osquery. ok (record {
                              renga_url = url;
                              allow_insecure_http = insecure;
                              intake_api_key = key;
                              installation_id = installation_id;
                              inventory_interval = inventory;
                              checkin_interval = checkin;
                              config_refresh_interval = refresh;
                              request_timeout = request_timeout;
                              max_retry_attempts = attempts;
                              labels = labels;
                              jobs = jobs;
                              collectors = collectors;
                              exporters = exporters;
                              osquery = osquery;
                            })
