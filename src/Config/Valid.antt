-- ===== src/Config/Valid.antt =====
-- What every configuration that agent/src/config.rs accepts satisfies.
use renga.Prelude.{
  ℕ, suc, ◌≤◌, ◌<◌, ◌≡◌, refl, sym, ap, subst, ◌∙◌, Bool, true, false, not, Option, none, some,
  List, is_empty, [], ◌∷◌, All, ltb, leb, length, ok, chain-eq-ok, ok_or, ok-Ensures, chain-Ensures,
  ok_injective, unless-eq-ok, when-eq-ok, arith,
}
use renga.Bytes.{Bytes}
use renga.Bytes.Dictionary.{Dictionary}
use renga.Smbios.Text.{trim}
use renga.Queries.Bounded.{count_chars}
use renga.Jobs.Catalog.{Selector, parse_selector, JobPolicy}
use renga.Config.Streams.{Distinct, collect-Distinct}
use renga.Config.{
  ConfigError, checkin_max, timeout_max, retries_max, labels_max, label_value_max, jobs_enabled_max,
  unwrap_or, required, duration, checkin_duration, trim_slashes, is_allowed, server_url,
  retry_attempts, timeout, valid_label_key, check_labels, validate_labels, parse_selectors,
  job_policy, Parsers, RawConfig, Config, collect, from_raw, no_identity, key_required,
  inventory_default, refresh_default, checkin_default, timeout_default,
}

-- At most so many jobs are enabled by name.
abbrev few_jobs : JobPolicy → Bool
few_jobs policy = elim policy.enabled [
  | none ↦ true
  | some selectors ↦ leb (length selectors) jobs_enabled_max
]

abbrev IsLabel : Bytes × Bytes → Type 0
IsLabel (key, value) = (valid_label_key key ≡ true) × (count_chars value ≤ label_value_max)

duration-eq-ok : (value : Option ℕ) (default : ℕ) {d : ℕ} → duration value default ≡ ok d → 0 < d
unfolding duration
duration-eq-ok value default h = ground arith

checkin_duration-eq-ok :
    (value : Option ℕ) {d : ℕ} → checkin_duration value ≡ ok d → (0 < d) × (d ≤ checkin_max)
unfolding checkin_duration
checkin_duration-eq-ok value h =
    let (d, e, k) = chain-eq-ok (duration value checkin_default) _ h in
    let positive = duration-eq-ok value _ e in (ground arith, ground arith)

timeout-eq-ok : (value : Option ℕ) {d : ℕ} → timeout value ≡ ok d → (0 < d) × (d ≤ timeout_max)
unfolding timeout
timeout-eq-ok value h =
    let (d, e, k) = chain-eq-ok (duration value timeout_default) _ h in
    let positive = duration-eq-ok value _ e in (ground arith, ground arith)

retry_attempts-eq-ok :
    (value : Option ℕ) {n : ℕ} → retry_attempts value ≡ ok n → (1 ≤ n) × (n ≤ retries_max)
unfolding retry_attempts
retry_attempts-eq-ok value h = (ground arith, ground arith)

required-eq-ok :
    (value : Option Bytes) (e : ConfigError) {v : Bytes}
    → required value e ≡ ok v
    → is_empty (trim v) ≡ false
unfolding required
required-eq-ok none e h = cc
required-eq-ok (some v) e h = ground arith

server_url-eq-ok :
    (insecure : Bool) (value : Option Bytes) {url : Bytes}
    → server_url insecure value ≡ ok url
    → is_allowed insecure url ≡ true
unfolding server_url
server_url-eq-ok insecure value h =
    let (v, e, k) = chain-eq-ok (required value _) _ h in
    let (allowed, same) = when-eq-ok (is_allowed insecure (trim_slashes v)) _ k in
    subst (λ u. is_allowed insecure u ≡ true) same allowed

check_labels-eq-ok :
    (labels : Dictionary) {u : Unit {0}} → check_labels labels ≡ ok u → All IsLabel labels
unfolding check_labels
check_labels-eq-ok [] h = tt
check_labels-eq-ok ((key, value) ∷ labels) h =
    let (valid, k) = unless-eq-ok (not (valid_label_key key)) _ h in
    let (short, rest) = unless-eq-ok (ltb label_value_max (count_chars value)) _ k in
    ((ground arith, ground arith), check_labels-eq-ok labels rest)

validate_labels-eq-ok :
    (labels : Dictionary) {kept : Dictionary}
    → validate_labels labels ≡ ok kept
    → (length kept ≤ labels_max) × All IsLabel kept
unfolding validate_labels
validate_labels-eq-ok labels h =
    let (few, k) = unless-eq-ok (ltb labels_max (length labels)) _ h in
    let (_, checked, same) = chain-eq-ok (check_labels labels) _ k in
    subst (λ kept. (length kept ≤ labels_max) × All IsLabel kept) (ok_injective same)
      (ground arith, check_labels-eq-ok labels checked)

length-parse_selectors :
    (entries : List Bytes) {selectors : List Selector}
    → parse_selectors entries ≡ ok selectors
    → length selectors ≡ length entries
unfolding parse_selectors
length-parse_selectors [] h = ap length (sym (ok_injective h))
length-parse_selectors (entry ∷ entries) h =
    let (selector, _, k) = chain-eq-ok (ok_or (parse_selector entry) _) _ h in
    let (selectors, rest, same) = chain-eq-ok (parse_selectors entries) _ k in
    ap length (sym (ok_injective same)) ∙ ap suc (length-parse_selectors entries rest)

job_policy-eq-ok :
    (value : Option (List Bytes)) {policy : JobPolicy}
    → job_policy value ≡ ok policy
    → few_jobs policy ≡ true
unfolding job_policy
job_policy-eq-ok none h = subst (λ p. few_jobs p ≡ true) (ok_injective h) refl
job_policy-eq-ok (some entries) h =
    let (few, k) = unless-eq-ok (ltb jobs_enabled_max (length entries)) _ h in
    let (selectors, parsed, same) = chain-eq-ok (parse_selectors entries) _ k in
    let e : length selectors ≡ length entries = length-parse_selectors entries parsed in
    subst (λ p. few_jobs p ≡ true) (ok_injective same) (rw e (ground arith))

pub record IsValid {R S : Type 0} (c : Config R S) : Type 0 where
  server : is_allowed c.allow_insecure_http c.renga_url ≡ true
  key : is_empty (trim c.intake_api_key) ≡ false
  inventory : 0 < c.inventory_interval
  checkin : (0 < c.checkin_interval) × (c.checkin_interval ≤ checkin_max)
  refresh : 0 < c.config_refresh_interval
  request : (0 < c.request_timeout) × (c.request_timeout ≤ timeout_max)
  retries : (1 ≤ c.max_retry_attempts) × (c.max_retry_attempts ≤ retries_max)
  labels : (length c.labels ≤ labels_max) × All IsLabel c.labels
  jobs : few_jobs c.jobs ≡ true
  streams : Distinct c.collectors

-- Every configuration that is accepted: its server is reached over HTTPS, or over HTTP if that is
-- allowed; its key is not blank; every interval is positive, a check-in comes at least once a minute,
-- a request takes at most 20 seconds and is tried one to five times; there are at most 32 labels, with
-- keys and values that Renga accepts, and at most 64 enabled jobs; and no two collectors of different
-- sections have the same id.
pub from_raw-IsValid :
    {R S : Type 0} (parsers : Parsers R S) (identity : Option Bytes → Option Bytes)
    (raw : RawConfig R S) (config : Config R S)
    → from_raw parsers identity raw ≡ ok config
    → IsValid config
unfolding from_raw
from_raw-IsValid parsers identity raw =
    chain-Ensures IsValid (ok_or (identity raw.installation_id) no_identity) _ λ installation_id _.
      chain-Ensures IsValid (server_url (unwrap_or false raw.allow_insecure_http) raw.renga_url) _
        λ url url_checked.
          chain-Ensures IsValid (retry_attempts raw.max_retry_attempts) _
            λ attempts attempts_checked.
              chain-Ensures IsValid (timeout raw.request_timeout_seconds) _
                λ request request_checked.
                  chain-Ensures IsValid (validate_labels (unwrap_or [] raw.labels)) _
                    λ labels labels_checked.
                      chain-Ensures IsValid (job_policy raw.jobs) _ λ jobs jobs_checked.
                        chain-Ensures IsValid (collect parsers raw) _ λ collectors collected.
                          chain-Ensures IsValid (required raw.intake_api_key key_required) _
                            λ key key_checked.
                              chain-Ensures IsValid
                                (duration raw.inventory_interval_seconds inventory_default) _
                                λ inventory inventory_checked.
                                  chain-Ensures IsValid
                                    (checkin_duration raw.checkin_interval_seconds) _
                                    λ checkin checkin_checked.
                                      chain-Ensures IsValid
                                        (duration raw.config_refresh_interval_seconds
                                          refresh_default)
                                        _
                                        λ refresh refresh_checked.
                                          chain-Ensures IsValid (parsers.exporters raw.exporters) _
                                            λ exporters _.
                                              chain-Ensures IsValid (parsers.osquery raw.osquery) _
                                                λ osquery _. ok-Ensures IsValid _ (record {
                                                  server =
                                                      server_url-eq-ok
                                                        (unwrap_or false raw.allow_insecure_http)
                                                        raw.renga_url url_checked;
                                                  key =
                                                      required-eq-ok raw.intake_api_key key_required
                                                        key_checked;
                                                  inventory =
                                                      duration-eq-ok raw.inventory_interval_seconds
                                                        inventory_default inventory_checked;
                                                  checkin =
                                                      checkin_duration-eq-ok
                                                        raw.checkin_interval_seconds
                                                        checkin_checked;
                                                  refresh =
                                                      duration-eq-ok
                                                        raw.config_refresh_interval_seconds
                                                        refresh_default refresh_checked;
                                                  request =
                                                      timeout-eq-ok raw.request_timeout_seconds
                                                        request_checked;
                                                  retries =
                                                      retry_attempts-eq-ok raw.max_retry_attempts
                                                        attempts_checked;
                                                  labels =
                                                      validate_labels-eq-ok
                                                        (unwrap_or [] raw.labels) labels_checked;
                                                  jobs = job_policy-eq-ok raw.jobs jobs_checked;
                                                  streams =
                                                      collect-Distinct parsers raw collectors
                                                        collected;
                                                })
