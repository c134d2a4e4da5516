-- ===== src/Model/Domain.antt =====
-- model/domain.go, and the normal forms of names in records.go and hosts.go.
pub mod Canonical
use bramble_gate.Prelude.{
  ℕ, ◌+◌, Bool, true, false, ◌||◌, not, Option, none, some, List, [], ◌∷◌, ◌++◌, any, length, ltb,
  ◌==◌, is_some, if◌then◌else◌, GoString, codes, str_eq, is_empty, is_space, contains, trim_space,
  trim_dot, to_lower, has_suffix, Ip,
}
use bramble_gate.Prelude.Results.{Result, ok, err}

-- The errors of `ParseDomainName`, with the values that their messages name.
pub data DomainError : Type 0 where
  empty_name : DomainError
  has_scheme : DomainError
  has_path : DomainError
  is_address : DomainError
  has_port : DomainError
  has_white_space : DomainError
  has_wildcard : DomainError
  invalid_character : DomainError
  name_too_long : DomainError
  empty_label : DomainError
  label_too_long : GoString → DomainError

-- `maxLabelLen` and `maxDomainLen`
abbrev pub max_label_len : ℕ
max_label_len = 63

abbrev pub max_domain_len : ℕ
max_domain_len = 253

-- strings.SplitSeq with one byte
unfoldable pub split : ℕ → GoString → List GoString
split d [] = [] ∷ []
split d (c ∷ s) =
    let rest = split d s in
    if c == d
    then [] ∷ rest
    else (elim rest [ [] ↦ (c ∷ []) ∷ [] | first ∷ others ↦ (c ∷ first) ∷ others ])

-- The loop over the labels: its first error.
unfoldable pub check_labels : List GoString → Option DomainError
check_labels [] = none
check_labels (label ∷ labels) =
    if is_empty label
    then some empty_label
    else if ltb max_label_len (length label)
    then some (label_too_long label)
    else check_labels labels

abbrev pub is_invalid : ℕ → Bool
is_invalid c = ltb c 0x21 || ltb 0x7e c

-- `Record.NormalizedName` and `NormalizedHostName`
unfoldable pub normalized_name : GoString → GoString
normalized_name name =
    let n = to_lower (trim_space name) in if has_suffix n (codes ".") then n else n ++ codes "."

-- The end of `ParseDomainName`, from the name in lower case without its last dot.
unfoldable pub finish_name : GoString → Result DomainError GoString
unfolding check_labels split
finish_name name =
    if ltb max_domain_len (length name)
    then err name_too_long
    else (elim (check_labels (split b'.' name)) [
      | some failure ↦ err failure
      | none ↦ ok (name ++ codes ".")
    ])

module _ (parse_ip : GoString → Option Ip) where
  -- `ParseDomainName`, without the white space round the name and with it.
  unfoldable pub parse_trimmed : GoString → Result DomainError GoString
  parse_trimmed s =
      if is_empty s || str_eq s (codes ".")
      then err empty_name
      else if contains s (codes "://")
      then err has_scheme
      else if contains s (codes "/")
      then err has_path
      else if is_some (parse_ip s)
      then err is_address
      else if contains s (codes ":")
      then err has_port
      else if any is_space s
      then err has_white_space
      else if contains s (codes "*")
      then err has_wildcard
      else if any is_invalid s
      then err invalid_character
      else finish_name (to_lower (trim_dot s))

  unfoldable pub parse_domain_name : GoString → Result DomainError GoString
  unfolding parse_trimmed
  parse_domain_name s = parse_trimmed (trim_space s)
