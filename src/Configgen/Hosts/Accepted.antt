-- ===== src/Configgen/Hosts/Accepted.antt =====
-- internal/configgen/validate.go: what `validateHosts` accepts.
use mathlib.Core.List.{map-append}
use bramble_gate.Prelude.{
  ◌≡◌, sym, ap, ◌∙◌, inl, inr, true, false, Option, none, List, [], ◌∷◌, ◌++◌, map, any, All,
  All-append, is_some, GoString, codes, str_eq, Ip, arith, subst,
}
use bramble_gate.Prelude.Distinct.{Distinct, Fresh, done, new, Fresh-append, Fresh-Distinct}
use bramble_gate.Prelude.Results.{ok, >>=-eq-ok, ok-injective, Result-cases}
use bramble_gate.Model.Domain.{parse_domain_name, normalized_name}
use bramble_gate.Model.Domain.Canonical.{parse_domain_name-IsCanonical}
use bramble_gate.Model.Settings.{Host, names}
use bramble_gate.Configgen.Hosts.{
  add_name, add_names, add_host, validate_hosts_from, validate_hosts,
}

-- The names of all hosts.
abbrev pub all_names : List Host → List GoString
all_names [] = []
all_names (h ∷ hosts) = names h ++ all_names hosts

module _ (parse_ip : GoString → Option Ip) where
  -- A name is one that a host may have.
  abbrev pub Parses : GoString → Type 0
  Parses name = parse_domain_name parse_ip name ≡ ok (normalized_name name)

  module _ (no_dot : (t : GoString) → parse_ip (t ++ codes ".") ≡ none) where
    add_name-eq-ok :
        (ip name : GoString) (seen : List GoString) {seen' : List GoString}
        → add_name parse_ip ip name seen ≡ ok seen'
        → Parses name
          × (any (str_eq (normalized_name name)) seen ≡ false)
          × (normalized_name name ∷ seen ≡ seen')
    unfolding add_name
    add_name-eq-ok ip name seen {seen'} h = elim (Result-cases (parse_domain_name parse_ip name)) [
      | inl (failure, bad) ↦ ground (arith, bad)
      | inr (canonical, good) ↦
          let same_name = (parse_domain_name-IsCanonical parse_ip name no_dot good).1 in
          (good ∙ ap ok (sym same_name), ground (arith, good), ground (arith, good))
    ]

    add_names-Fresh :
        (ip : GoString) (ns seen : List GoString) {seen' : List GoString}
        → add_names parse_ip ip ns seen ≡ ok seen'
        → All Parses ns × Fresh seen (map normalized_name ns) seen'
    unfolding add_names
    add_names-Fresh ip [] seen {seen'} h = (tt, subst (λ s. Fresh seen [] s) (ok-injective h) done)
    add_names-Fresh ip (n ∷ ns) seen {seen'} h =
        let (s, first, rest) = >>=-eq-ok (add_name parse_ip ip n seen) _ h in
        let (parses, fresh, grown) = add_name-eq-ok ip n seen first in
        let (all, more) = add_names-Fresh ip ns s rest in ((parses, all), new fresh (rw grown more))

    add_host-Fresh :
        (h : Host) (seen : List GoString) {seen' : List GoString}
        → add_host parse_ip h seen ≡ ok seen'
        → (is_some (parse_ip h.ip) ≡ true)
          × All Parses (names h)
          × Fresh seen (map normalized_name (names h)) seen'
    unfolding add_host
    add_host-Fresh h seen e =
        let added : add_names parse_ip h.ip (names h) seen ≡ ok _ = ground (arith, e) in
        let (all, fresh) = add_names-Fresh h.ip (names h) seen added in
        (ground (arith, e), all, fresh)

    -- What is known of hosts that pass the check after the names of `seen`.
    record IsAccepted (hosts : List Host) (seen seen' : List GoString) : Type 0 where
      addresses : All (λ h. is_some (parse_ip h.ip) ≡ true) hosts
      parsed : All Parses (all_names hosts)
      fresh : Fresh seen (map normalized_name (all_names hosts)) seen'

    hosts_from-IsAccepted :
        (hosts : List Host) (seen : List GoString) {seen' : List GoString}
        → validate_hosts_from parse_ip hosts seen ≡ ok seen'
        → IsAccepted hosts seen seen'
    unfolding validate_hosts_from
    hosts_from-IsAccepted [] seen e = record {
      addresses = tt;
      parsed = tt;
      fresh = subst (λ s. Fresh seen [] s) (ok-injective e) done;
    }
    hosts_from-IsAccepted (h ∷ hosts) seen {seen'} e =
        let (s, first, rest) = >>=-eq-ok (add_host parse_ip h seen) _ e in
        let (address, parsed, fresh) = add_host-Fresh h seen first in
        let more = hosts_from-IsAccepted hosts s rest in
        record {
          addresses = (address, more.addresses);
          parsed = All-append Parses (names h) (all_names hosts) parsed more.parsed;
          fresh =
              subst (λ l. Fresh seen l seen')
                (sym (map-append normalized_name (names h) (all_names hosts)))
                (Fresh-append fresh more.fresh);
        }

    -- Given that net.ParseIP reads no text that ends with a dot: of hosts that are accepted every
    -- address parses, every name and alias parses to its normalised form, and no two of the names
    -- of all hosts have the same normalised form.
    pub validate_hosts-Distinct :
        (hosts : List Host) {seen : List GoString}
        → validate_hosts parse_ip hosts ≡ ok seen
        → All (λ h. is_some (parse_ip h.ip) ≡ true) hosts
          × All Parses (all_names hosts)
          × Distinct (map normalized_name (all_names hosts))
    unfolding validate_hosts
    validate_hosts-Distinct hosts e =
        let a = hosts_from-IsAccepted hosts [] e in (a.addresses, a.parsed, Fresh-Distinct a.fresh)
