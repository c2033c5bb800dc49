-- ===== src/Profiles/Configs/Services.antt =====
-- The config classes of BMC users, time, sessions and certificates (db/models/global_site_config.py).
use maas_site_manager.Common.{true, false, none, some}
use maas_site_manager.Profiles.Values.{
  SiteConfig, pos, null, bool, int, text, bool_field, int_field, str_field, enum_field,
  enum_list_field, no_validator,
}
use maas_site_manager.Profiles.Validators.{on_text}
use maas_site_manager.Profiles.Addresses.{Library, validate_ntp_servers, validate_systemd_interval}
use maas_site_manager.Profiles.Enums.{
  ipmi_privilege_level, ipmi_cipher_suite_id, ipmi_workaround_flags,
}

abbrev pub enlist_commissioning_config : SiteConfig
enlist_commissioning_config = record {
  name = "enlist_commissioning";
  default = bool true;
  description = "Whether to run commissioning during enlistment.";
  help_text = some "Enables running all built-in commissioning scripts during enlistment.";
  field = bool_field;
  ge = none;
  le = none;
  validates = no_validator;
}

abbrev pub maas_auto_ipmi_user_config : SiteConfig
maas_auto_ipmi_user_config = record {
  name = "maas_auto_ipmi_user";
  default = text "maas";
  description = "MAAS IPMI user.";
  help_text =
      some
        "The name of the IPMI user that MAAS automatically creates during enlistment/commissioning.";
  field = str_field;
  ge = none;
  le = none;
  validates = no_validator;
}

abbrev pub maas_auto_ipmi_user_privilege_level_config : SiteConfig
maas_auto_ipmi_user_privilege_level_config = record {
  name = "maas_auto_ipmi_user_privilege_level";
  default = text "ADMIN";
  description = "MAAS IPMI privilege level";
  help_text =
      some
        "The default IPMI privilege level to use when creating the MAAS user and talking IPMI BMCs";
  field = enum_field ipmi_privilege_level;
  ge = none;
  le = none;
  validates = no_validator;
}

abbrev pub maas_auto_ipmi_cipher_suite_id_config : SiteConfig
maas_auto_ipmi_cipher_suite_id_config = record {
  name = "maas_auto_ipmi_cipher_suite_id";
  default = text "3";
  description = "MAAS IPMI Default Cipher Suite ID";
  help_text =
      some "The default IPMI cipher suite ID to use when connecting to the BMC via ipmitools";
  field = enum_field ipmi_cipher_suite_id;
  ge = none;
  le = none;
  validates = no_validator;
}

abbrev pub maas_auto_ipmi_workaround_flags_config : SiteConfig
maas_auto_ipmi_workaround_flags_config = record {
  name = "maas_auto_ipmi_workaround_flags";
  default = null;
  description = "IPMI Workaround Flags";
  help_text = some "The default workaround flag (-W options) to use for ipmipower commands";
  field = enum_list_field ipmi_workaround_flags;
  ge = none;
  le = none;
  validates = no_validator;
}

abbrev pub ntp_servers_config : Library → SiteConfig
ntp_servers_config lib = record {
  name = "ntp_servers";
  default = text "ntp.ubuntu.com";
  description = "Addresses of NTP servers";
  help_text =
      some
        "NTP servers, specified as IP addresses or hostnames delimited by commas and/or spaces, to be used as time references for MAAS itself, the machines MAAS deploys, and devices that make use of MAAS's DHCP services.";
  field = str_field;
  ge = none;
  le = none;
  validates = on_text (validate_ntp_servers lib);
}

abbrev pub ntp_external_only_config : SiteConfig
ntp_external_only_config = record {
  name = "ntp_external_only";
  default = bool false;
  description = "Use external NTP servers only";
  help_text =
      some
        "Configure all region controller hosts, rack controller hosts, and subsequently deployed machines to refer directly to the configured external NTP servers. Otherwise only region controller hosts will be configured to use those external NTP servers, rack contoller hosts will in turn refer to the regions' NTP servers, and deployed machines will refer to the racks' NTP servers.";
  field = bool_field;
  ge = none;
  le = none;
  validates = no_validator;
}

abbrev pub hardware_sync_interval_config : Library → SiteConfig
hardware_sync_interval_config lib = record {
  name = "hardware_sync_interval";
  default = text "15m";
  description = "Hardware Sync Interval";
  help_text =
      some
        "The interval to send hardware info to MAAS fromhardware sync enabled machines, in systemd time span syntax.";
  field = str_field;
  ge = none;
  le = none;
  validates = on_text (validate_systemd_interval lib);
}

abbrev pub tls_cert_expiration_notification_enabled_config : SiteConfig
tls_cert_expiration_notification_enabled_config = record {
  name = "tls_cert_expiration_notification_enabled";
  default = bool false;
  description = "Notify when the certificate is due to expire";
  help_text = some "Enable/Disable notification about certificate expiration.";
  field = bool_field;
  ge = none;
  le = none;
  validates = no_validator;
}

abbrev pub tls_cert_expiration_notification_interval_config : SiteConfig
tls_cert_expiration_notification_interval_config = record {
  name = "tls_cert_expiration_notification_interval";
  default = int (pos 30);
  description = "Certificate expiration reminder (days)";
  help_text = some "Configure notification when certificate is due to expire in (days).";
  field = int_field;
  ge = some 1;
  le = some 90;
  validates = no_validator;
}

abbrev pub session_length_config : SiteConfig
session_length_config = record {
  name = "session_length";
  default = int (pos 1209600);
  description = "Session timeout (seconds)";
  help_text =
      some "Configure timeout of session (seconds). Minimum 10s, maximum 2 weeks (1209600s).";
  field = int_field;
  ge = some 10;
  le = some 1209600;
  validates = no_validator;
}

abbrev pub refresh_token_duration_config : SiteConfig
refresh_token_duration_config = record {
  name = "refresh_token_duration";
  default = int (pos 2592000);
  description = "Refresh token duration (seconds)";
  help_text =
      some
        "Configure duration of refresh token (seconds). Minimum 10 minutes, maximum 60 days (5184000s).";
  field = int_field;
  ge = some 600;
  le = some 5184000;
  validates = no_validator;
}

abbrev pub auto_vlan_creation_config : SiteConfig
auto_vlan_creation_config = record {
  name = "auto_vlan_creation";
  default = bool true;
  description = "Automatically create VLANs and Fabrics for interfaces";
  help_text =
      some
        "Enables the creation of a default VLAN and Fabric for discovered network interfaces when MAAS cannot connect it to an existing one. When disabled, the interface is left disconnected in these cases.";
  field = bool_field;
  ge = none;
  le = none;
  validates = no_validator;
}

abbrev pub enable_http_proxy_config : SiteConfig
enable_http_proxy_config = record {
  name = "enable_http_proxy";
  default = bool true;
  description = "Enable the use of an APT or YUM and HTTP/HTTPS proxy";
  help_text =
      some
        "Provision nodes to use the built-in HTTP proxy (or user specified proxy) for APT or YUM. MAAS also uses the proxy for downloading boot images.";
  field = bool_field;
  ge = none;
  le = none;
  validates = no_validator;
}

abbrev pub windows_kms_host_config : SiteConfig
windows_kms_host_config = record {
  name = "windows_kms_host";
  default = null;
  description = "Windows KMS activation host";
  help_text =
      some
        "FQDN or IP address of the host that provides the KMS Windows activation service. (Only needed for Windows deployments using KMS activation.)";
  field = str_field;
  ge = none;
  le = none;
  validates = no_validator;
}
