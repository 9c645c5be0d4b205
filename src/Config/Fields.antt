-- ===== src/Config/Fields.antt =====
-- The fields of the configuration that stand by themselves, as agent/src/config.rs validates them.
use renga.Prelude.{
  ℕ, Bool, false, ◌&&◌, ◌||◌, not, Option, none, some, List, is_empty, [], ◌∷◌, all, ltb, leb, ◌==◌,
  if◌then◌else◌, length, Result, ok, err, chain, ok_or,
}
use renga.Bytes.{Bytes}
use renga.Bytes.Literals.{codes}
use renga.Bytes.Dictionary.{Dictionary}
use renga.Smbios.Text.{trim, between}
use renga.Exporters.Text.{is_ascii_alphabetic}
use renga.Queries.Statement.{starts}
use renga.Queries.Bounded.{count_chars}
use renga.Jobs.Catalog.{Selector, parse_selector, JobPolicy}

pub data ConfigError : Type 0 where
  no_identity url_required key_required url_not_https retries_out_of_range not_positive
        timeout_too_long checkin_too_long :
      ConfigError
  too_many_labels invalid_label_key label_too_long too_many_jobs invalid_job invalid_section
        id_used_twice :
      ConfigError

abbrev pub inventory_default : ℕ
inventory_default = 3600

abbrev pub checkin_default : ℕ
checkin_default = 60

abbrev pub checkin_max : ℕ
checkin_max = 60

abbrev pub refresh_default : ℕ
refresh_default = 300

abbrev pub timeout_default : ℕ
timeout_default = 20

abbrev pub timeout_max : ℕ
timeout_max = 20

abbrev pub retries_default : ℕ
retries_default = 5

abbrev pub retries_max : ℕ
retries_max = 5

abbrev pub labels_max : ℕ
labels_max = 32

abbrev pub label_key_max : ℕ
label_key_max = 63

abbrev pub label_value_max : ℕ
label_value_max = 255

abbrev pub jobs_enabled_max : ℕ
jobs_enabled_max = 64

abbrev pub unwrap_or : {A : Type 0} → A → Option A → A
unwrap_or default none = default
unwrap_or default (some a) = a

unfoldable pub required : Option Bytes → ConfigError → Result Bytes ConfigError
required none e = err e
required (some v) e = if is_empty (trim v) then err e else ok v

unfoldable pub duration : Option ℕ → ℕ → Result ℕ ConfigError
duration value default =
    let seconds = unwrap_or default value in if seconds == 0 then err not_positive else ok seconds

unfoldable pub checkin_duration : Option ℕ → Result ℕ ConfigError
checkin_duration value =
    chain (duration value checkin_default)
      λ d. if ltb checkin_max d then err checkin_too_long else ok d

-- `trim_end_matches('/')`
unfoldable pub trim_slashes : Bytes → Bytes
trim_slashes [] = []
trim_slashes (c ∷ s) =
    let rest = trim_slashes s in if is_empty rest && c == b'/' then [] else c ∷ rest

abbrev pub is_allowed : Bool → Bytes → Bool
is_allowed insecure url =
    starts (codes "https://") url || (insecure && starts (codes "http://") url)

unfoldable pub server_url : Bool → Option Bytes → Result Bytes ConfigError
server_url insecure value = chain (required value url_required) λ url.
    if is_allowed insecure (trim_slashes url) then ok (trim_slashes url) else err url_not_https

unfoldable pub retry_attempts : Option ℕ → Result ℕ ConfigError
retry_attempts value =
    let attempts = unwrap_or retries_default value in
    if leb 1 attempts && leb attempts retries_max then ok attempts else err retries_out_of_range

unfoldable pub timeout : Option ℕ → Result ℕ ConfigError
timeout value =
    chain (duration value timeout_default)
      λ d. if ltb timeout_max d then err timeout_too_long else ok d

abbrev pub is_alphanumeric : ℕ → Bool
is_alphanumeric b = is_ascii_alphabetic b || between b'0' b'9' b

abbrev pub first_is : (ℕ → Bool) → Bytes → Bool
first_is p [] = false
first_is p (b ∷ _) = p b

abbrev pub last_is : (ℕ → Bool) → Bytes → Bool
last_is p [] = false
last_is p (b ∷ s) = if is_empty s then p b else last_is p s

unfoldable pub valid_label_key : Bytes → Bool
valid_label_key key =
    not (is_empty key)
    && leb (length key) label_key_max
    && first_is is_alphanumeric key
    && last_is is_alphanumeric key
    && all (λ b. is_alphanumeric b || b == b'.' || b == b'_' || b == b'-' || b == b'/') key

unfoldable pub check_labels : Dictionary → Result (Unit {0}) ConfigError
check_labels [] = ok tt
check_labels ((key, value) ∷ labels) =
    let rest = check_labels labels in
    if not (valid_label_key key)
    then err invalid_label_key
    else if ltb label_value_max (count_chars value)
    then err label_too_long
    else rest

unfoldable pub validate_labels : Dictionary → Result Dictionary ConfigError
validate_labels labels =
    if ltb labels_max (length labels)
    then err too_many_labels
    else chain (check_labels labels) λ _. ok labels

unfoldable pub parse_selectors : List Bytes → Result (List Selector) ConfigError
parse_selectors [] = ok []
parse_selectors (entry ∷ entries) =
    chain (ok_or (parse_selector entry) invalid_job)
      λ selector. chain (parse_selectors entries) λ selectors. ok (selector ∷ selectors)

unfoldable pub job_policy : Option (List Bytes) → Result JobPolicy ConfigError
job_policy none = ok (record { enabled = none })
job_policy (some entries) =
    if ltb jobs_enabled_max (length entries)
    then err too_many_jobs
    else chain (parse_selectors entries) λ selectors. ok (record { enabled = some selectors })
