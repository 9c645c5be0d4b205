-- ===== src/Config/Streams.antt =====
-- No two collectors that agent/src/config.rs accepts are one stream.
use renga.Prelude.{
  ◌≡◌, refl, sym, ap, ◌∙◌, Bool, true, false, ◌||◌, not, Option, none, some, List, [], ◌∷◌, ◌++◌,
  any, any-append, any_ext, or_false, ok, chain-eq-ok, ensure, ensure-eq-ok, Ensures, ok-Ensures,
  chain-Ensures,
}
use renga.Bytes.{Bytes, bytes_eq}
use renga.Config.{
  Collector, Parsers, Collectors, RawConfig, uses, is_libvirt, check_libvirt, collect,
  id_used_twice,
}

-- No two of the ids are equal.
abbrev pub Apart : {R S : Type 0} → List (Collector R S) → List (Collector R S) → Type 0
Apart xs ys = any (λ c. uses c.id ys) xs ≡ false

abbrev pub listed : {R S : Type 0} → Option (Collector R S) → List (Collector R S)
listed none = []
listed (some l) = l ∷ []

abbrev pub Distinct : {R S : Type 0} → Collectors R S → Type 0
Distinct c =
    Apart c.gnmi c.snmp
    × Apart (listed c.libvirt) (c.snmp ++ c.gnmi)
    × Apart c.power (c.snmp ++ c.gnmi ++ listed c.libvirt)
    × Apart c.bmc ((c.snmp ++ c.power) ++ c.gnmi ++ listed c.libvirt)

untrue : (b : Bool) → not b ≡ true → b ≡ false
untrue true h = absurd cc
untrue false h = refl

module _ {R S : Type 0} where
  uses-listed : (l : Option (Collector R S)) (id : Bytes) → is_libvirt l id ≡ uses id (listed l)
  uses-listed none id = refl
  uses-listed (some l) id = or_false (bytes_eq l.id id)

  apart :
      (xs a b : List (Collector R S)) (l : Option (Collector R S))
      → not (any (λ x. uses x.id a || uses x.id b || is_libvirt l x.id) xs) ≡ true
      → Apart xs (a ++ b ++ listed l)
  apart xs a b l h = any_ext _ _ same xs ∙ untrue _ h
    where
      same :
          (x : Collector R S)
          → uses x.id (a ++ b ++ listed l) ≡ (uses x.id a || uses x.id b || is_libvirt l x.id)
      same x =
          any-append (λ y. bytes_eq y.id x.id) (a ++ b) (listed l)
          ∙ ap (λ t. t || uses x.id (listed l)) (any-append (λ y. bytes_eq y.id x.id) a b)
          ∙ ap (λ t. uses x.id a || uses x.id b || t) (sym (uses-listed l x.id))

  libvirt-Apart :
      (snmp gnmi : List (Collector R S)) (l : Option (Collector R S)) {u : Unit {0}}
      → check_libvirt snmp gnmi l ≡ ok u
      → Apart (listed l) (snmp ++ gnmi)
  libvirt-Apart snmp gnmi none h = refl
  libvirt-Apart snmp gnmi (some l) h =
      let (_, snmp_checked, k) = chain-eq-ok (ensure (not (uses l.id snmp)) _) _ h in
      let no_snmp = untrue (uses l.id snmp) (ensure-eq-ok _ _ snmp_checked) in
      let no_gnmi = untrue (uses l.id gnmi) (ensure-eq-ok _ _ k) in
      rw (any-append (λ y. bytes_eq y.id l.id) snmp gnmi, no_snmp, no_gnmi) refl

  pub collect-Distinct :
      (parsers : Parsers R S) (raw : RawConfig R S) → Ensures Distinct (collect parsers raw)
  unfolding collect
  collect-Distinct parsers raw = chain-Ensures Distinct (parsers.snmp raw.snmp) _ λ snmp _.
      chain-Ensures Distinct (parsers.gnmi raw.gnmi) _ λ gnmi _.
        chain-Ensures Distinct (ensure (not (any (λ c. uses c.id snmp) gnmi)) id_used_twice) _
          λ _ gnmi_checked. chain-Ensures Distinct (parsers.libvirt raw.libvirt) _ λ libvirt _.
            chain-Ensures Distinct (check_libvirt snmp gnmi libvirt) _ λ _ libvirt_checked.
              chain-Ensures Distinct (parsers.power raw.power) _ λ power _.
                chain-Ensures Distinct
                  (ensure
                    (not (
                      any (λ c. uses c.id snmp || uses c.id gnmi || is_libvirt libvirt c.id) power))
                    id_used_twice)
                  _
                  λ _ power_checked. chain-Ensures Distinct (parsers.bmc raw.bmc) _ λ bmc _.
                    chain-Ensures Distinct
                      (ensure
                        (not (
                          any
                            (λ c.
                              uses c.id (snmp ++ power)
                              || uses c.id gnmi
                              || is_libvirt libvirt c.id)
                            bmc))
                        id_used_twice)
                      _
                      λ _ bmc_checked. ok-Ensures Distinct _ (
                        untrue _ (ensure-eq-ok _ id_used_twice gnmi_checked),
                        libvirt-Apart snmp gnmi libvirt libvirt_checked,
                        apart power snmp gnmi libvirt (ensure-eq-ok _ id_used_twice power_checked),
                        apart bmc (snmp ++ power) gnmi libvirt
                            (ensure-eq-ok _ id_used_twice bmc_checked),
                      )
