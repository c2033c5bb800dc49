-- ===== src/Profiles/Enums.antt =====
-- The enumerations of common/enums.py that a config takes its value from, by their values.
use maas_site_manager.Common.{ℕ, String, List, [], ◌∷◌, ◌*◌, ◌+◌, map}
use maas_site_manager.Profiles.Values.{Value, int, text, pos}

abbrev pub dnssec : List Value
dnssec = map text ("auto" ∷ "yes" ∷ "no" ∷ [])

-- `_timedelta_to_whole_seconds`
abbrev pub timedelta_to_whole_seconds : ℕ → ℕ → ℕ → ℕ
timedelta_to_whole_seconds minutes hours days = minutes * 60 + hours * 3600 + days * 86400

abbrev pub active_discovery_interval : List Value
active_discovery_interval =
    map (λ n. int (pos n))
      (0
        ∷ timedelta_to_whole_seconds 0 0 7
        ∷ timedelta_to_whole_seconds 0 0 1
        ∷ timedelta_to_whole_seconds 0 12 0
        ∷ timedelta_to_whole_seconds 0 6 0
        ∷ timedelta_to_whole_seconds 0 3 0
        ∷ timedelta_to_whole_seconds 0 1 0
        ∷ timedelta_to_whole_seconds 30 0 0
        ∷ timedelta_to_whole_seconds 10 0 0
        ∷ [])

abbrev pub ipmi_cipher_suite_id : List Value
ipmi_cipher_suite_id = map text ("17" ∷ "3" ∷ "" ∷ "8" ∷ "12" ∷ [])

abbrev pub ipmi_privilege_level : List Value
ipmi_privilege_level = map text ("USER" ∷ "OPERATOR" ∷ "ADMIN" ∷ [])

abbrev pub ipmi_workaround_flags : List String
ipmi_workaround_flags =
    "opensesspriv" ∷ "authcap" ∷ "idzero" ∷ "unexpectedauth" ∷ "forcepermsg" ∷ "endianseq"
    ∷ "intel20" ∷ "supermicro20" ∷ "sun20" ∷ "nochecksumcheck" ∷ "integritycheckvalue" ∷ "ipmiping"
    ∷ "" ∷ []

abbrev pub storage_layout : List Value
storage_layout = map text ("bcache" ∷ "blank" ∷ "custom" ∷ "flat" ∷ "lvm" ∷ "vmfs6" ∷ "vmfs7" ∷ [])

abbrev pub interface_link_type : List Value
interface_link_type = map text ("auto" ∷ "dhcp" ∷ "static" ∷ "link_up" ∷ [])
