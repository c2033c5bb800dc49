-- ===== src/Profiles/Addresses.antt =====
-- The validators of db/models/global_site_config.py that look for addresses, hosts and intervals:
-- `DNSTrustedAclConfig`, `NTPServersConfig`, `RemoteSyslogConfig` and `HardwareSyncIntervalConfig`. The
-- parsers of addresses (netaddr) and of URLs are parameters. The numbers of an interval are taken to fit
-- a `timedelta`.
use maas_site_manager.Common.{
  ℕ, Bool, true, false, Option, none, some, List, [], ◌∷◌, ◌++◌, ◌&&◌, ◌||◌, not, any, leb, ltb,
  ◌==◌, length, if◌then◌else◌,
}
use maas_site_manager.Profiles.Validators.{
  Text, Unicode, is_ascii_digit, is_hex, dot, colon, slash, all, split_by, is_empty, starts_by,
  all_texts, validate_hostname,
}

-- What the netaddr library accepts, and what `urlparse` makes of a text: none where it raises a
-- ValueError, and so for the port.
pub record Url : Type 0 where
  pub hostname : Option Text
  pub port : Option (Option ℕ)

pub record Library : Type 0 where
  pub unicode : Unicode
  pub is_address : Text → Bool
  pub is_network : Text → Bool
  pub urlparse : Text → Option Url

module _ (lib : Library) where
  -- `\d`
  abbrev pub is_digit : ℕ → Bool
  is_digit c = if ltb c 128 then is_ascii_digit c else lib.unicode.is_digit c

  -- `\s`
  abbrev pub is_space : ℕ → Bool
  is_space c =
      if ltb c 128 then (leb 9 c && leb c 13) || (leb 28 c && leb c 32) else lib.unicode.is_space c

  abbrev non_empty : List Text → List Text
  non_empty [] = []
  non_empty (t ∷ ts) = let rest = non_empty ts in if is_empty t then rest else t ∷ rest

  -- The parts between the runs of `[,\s]+` that are not empty.
  abbrev pub words : Text → List Text
  words value = non_empty (split_by (λ c. c == b',' || is_space c) value)

  -- `\d{1,3}`
  abbrev is_octet : Text → Bool
  is_octet t = not (is_empty t) && leb (length t) 3 && all is_digit t

  abbrev four_octets : List Text → Bool
  four_octets (a ∷ b ∷ c ∷ d ∷ []) = is_octet a && is_octet b && is_octet c && is_octet d
  four_octets l = false

  abbrev pub matches_ipv4 : Text → Bool
  matches_ipv4 value = four_octets (split_by (◌==◌ dot) value)

  -- `([0-9A-Fa-f]{1,4})?`
  abbrev is_group : Text → Bool
  is_group t = leb (length t) 4 && all is_hex t

  abbrev two_groups : List Text → Bool
  two_groups (a ∷ b ∷ c ∷ l) = is_group a && is_group b
  two_groups l = false

  abbrev pub matches_ipv6 : Text → Bool
  matches_ipv6 value = two_groups (split_by (◌==◌ colon) value)

  abbrev matches_ip : Text → Bool
  matches_ip value = matches_ipv4 value || matches_ipv6 value

  -- The text before and after the last slash.
  abbrev before_or : ℕ → Text → Option (Text × Text) → Option (Text × Text)
  before_or c s none = if c == slash then some ([], s) else none
  before_or c s (some (a, b)) = some (c ∷ a, b)

  abbrev at_last_slash : Text → Option (Text × Text)
  at_last_slash [] = none
  at_last_slash (c ∷ s) = before_or c s (at_last_slash s)

  abbrev matches_parts : Option (Text × Text) → Bool
  matches_parts none = false
  matches_parts (some (a, b)) = matches_ip a && not (is_empty b) && all is_digit b

  abbrev pub matches_subnet : Text → Bool
  matches_subnet value = matches_parts (at_last_slash value)

  -- `DNSTrustedAclConfig._clean_addr_or_host`
  abbrev pub acl_entry : Text → Bool
  acl_entry value =
      if matches_subnet value
      then lib.is_network value
      else if matches_ip value
      then lib.is_address value
      else validate_hostname value

  abbrev pub validate_trusted_acl : Text → Bool
  validate_trusted_acl value = all_texts acl_entry (words value)

  -- `NTPServersConfig._clean_addr_or_host`. What its pattern for IPv6 matches has a colon.
  abbrev pub ntp_entry : Text → Bool
  ntp_entry value =
      if matches_ipv4 value || any (◌==◌ colon) value
      then lib.is_address value
      else validate_hostname value

  abbrev pub validate_ntp_servers : Text → Bool
  validate_ntp_servers value = all_texts ntp_entry (words value)

  -- `splithost`, up to whether it raises
  abbrev port_read : Option Url → Bool
  port_read none = false
  port_read (some u) = elim u.port [ none ↦ false | some p ↦ true ]

  abbrev split_parsed : Text → Option Url → Bool
  split_parsed host none = false
  split_parsed host (some u) = elim u.hostname [
    | some h ↦ port_read (some u)
    | none ↦ port_read (lib.urlparse (slash ∷ slash ∷ b'[' ∷ host ++ b']' ∷ []))
  ]

  abbrev pub splithost : Text → Bool
  splithost host = split_parsed host (lib.urlparse (slash ∷ slash ∷ host))

  abbrev pub validate_remote_syslog : Text → Bool
  validate_remote_syslog value = if is_empty value then true else splithost value

  abbrev starts_unit : Text → Bool
  starts_unit [] = false
  starts_unit (c ∷ s) = c == b'h' || c == b'm' || c == b's'

  abbrev after_space : Text → Bool
  after_space [] = false
  after_space (c ∷ s) = if is_space c then starts_unit s else starts_unit (c ∷ s)

  abbrev after_digits : Text → Bool
  after_digits [] = false
  after_digits (c ∷ s) =
      let rest = after_digits s in if is_digit c then rest else after_space (c ∷ s)

  -- `systemd_interval_to_seconds`, up to whether it raises: its pattern matches more than the empty
  -- text exactly if a number, at most one space and the first letter of a unit come first.
  abbrev pub validate_systemd_interval : Text → Bool
  validate_systemd_interval value = starts_by is_digit value && after_digits value
