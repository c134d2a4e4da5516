-- ===== src/Configgen/Hosts.antt =====
-- internal/configgen/validate.go: the check of the static hosts.
pub mod Accepted
use bramble_gate.Prelude.{
  Bool, true, false, not, Option, none, some, List, [], ◌∷◌, any, is_some, if◌then◌else◌, GoString,
  str_eq, is_empty, trim_space, Ip,
}
use bramble_gate.Prelude.Results.{Result, ok, err, ◌>>=◌}
use bramble_gate.Model.Domain.{DomainError, parse_domain_name, normalized_name}
use bramble_gate.Model.Settings.{Host, names}

-- The errors of `validateHosts`, with the address and the name that their messages have.
pub data HostsError : Type 0 where
  not_an_ip : GoString → HostsError
  missing_hostname : GoString → HostsError
  empty_alias : GoString → HostsError
  bad_name : GoString → GoString → DomainError → HostsError
  duplicate_name : GoString → HostsError

module _ (parse_ip : GoString → Option Ip) where
  -- One round of the loop over a host's names, with the normalised names seen so far.
  unfoldable pub add_name : GoString → GoString → List GoString → Result HostsError (List GoString)
  add_name ip name seen =
      if is_empty (trim_space name)
      then err (empty_alias ip)
      else (elim (parse_domain_name parse_ip name) [
        | err failure ↦ err (bad_name ip name failure)
        | ok canonical ↦
            if any (str_eq (normalized_name name)) seen
            then err (duplicate_name name)
            else ok (normalized_name name ∷ seen)
      ])

  unfoldable pub add_names :
      GoString → List GoString → List GoString → Result HostsError (List GoString)
  add_names ip [] seen = ok seen
  add_names ip (name ∷ rest) seen = do seen' ← add_name ip name seen; add_names ip rest seen'

  unfoldable pub add_host : Host → List GoString → Result HostsError (List GoString)
  add_host h seen =
      if not (is_some (parse_ip h.ip))
      then err (not_an_ip h.ip)
      else if is_empty (trim_space h.hostname)
      then err (missing_hostname h.ip)
      else add_names h.ip (names h) seen

  -- `validateHosts`: the names seen when it returns nil.
  unfoldable pub validate_hosts_from : List Host → List GoString → Result HostsError (List GoString)
  validate_hosts_from [] seen = ok seen
  validate_hosts_from (h ∷ hosts) seen = do seen' ← add_host h seen; validate_hosts_from hosts seen'

  unfoldable pub validate_hosts : List Host → Result HostsError (List GoString)
  validate_hosts hosts = validate_hosts_from hosts []
