-- ===== src/Profiles/Configs/Network.antt =====
-- The config classes of the network and its services (db/models/global_site_config.py).
use maas_site_manager.Common.{true, false, none, some}
use maas_site_manager.Profiles.Values.{
  SiteConfig, pos, null, bool, int, text, bool_field, int_field, str_field, address_list_field,
  enum_field, no_validator,
}
use maas_site_manager.Profiles.Validators.{
  on_port, on_text, validate_port, validate_syslog_port, validate_internal_domain,
}
use maas_site_manager.Profiles.Addresses.{Library, validate_trusted_acl, validate_remote_syslog}
use maas_site_manager.Profiles.Enums.{dnssec, active_discovery_interval, interface_link_type}

abbrev pub theme_config : SiteConfig
theme_config = record {
  name = "theme";
  default = text "";
  description = "MAAS theme";
  help_text = none;
  field = str_field;
  ge = none;
  le = none;
  validates = no_validator;
}

abbrev pub kernel_opts_config : SiteConfig
kernel_opts_config = record {
  name = "kernel_opts";
  default = null;
  description = "Boot parameters to pass to the kernel by default";
  help_text = none;
  field = str_field;
  ge = none;
  le = none;
  validates = no_validator;
}

abbrev pub maas_proxy_port_config : SiteConfig
maas_proxy_port_config = record {
  name = "maas_proxy_port";
  default = int (pos 8000);
  description = "Port to bind the MAAS built-in proxy (default: 8000)";
  help_text = some "Defines the port used to bind the built-in proxy. The default port is 8000.";
  field = int_field;
  ge = none;
  le = none;
  validates = on_port validate_port;
}

abbrev pub use_peer_proxy_config : SiteConfig
use_peer_proxy_config = record {
  name = "use_peer_proxy";
  default = bool false;
  description = "Use the built-in proxy with an external proxy as a peer";
  help_text =
      some
        "If enable_http_proxy is set, the built-in proxy will be configured to use http_proxy as a peer proxy. The deployed machines will be configured to use the built-in proxy.";
  field = bool_field;
  ge = none;
  le = none;
  validates = no_validator;
}

abbrev pub prefer_v4_proxy_config : SiteConfig
prefer_v4_proxy_config = record {
  name = "prefer_v4_proxy";
  default = bool false;
  description = "Sets IPv4 DNS resolution before IPv6";
  help_text =
      some
        "If prefer_v4_proxy is set, the proxy will be set to prefer IPv4 DNS resolution before it attempts to perform IPv6 DNS resolution.";
  field = bool_field;
  ge = none;
  le = none;
  validates = no_validator;
}

abbrev pub default_dns_ttl_config : SiteConfig
default_dns_ttl_config = record {
  name = "default_dns_ttl";
  default = int (pos 30);
  description = "Default Time-To-Live for the DNS";
  help_text =
      some
        "If no TTL value is specified at a more specific point this is how long DNS responses are valid, in seconds.";
  field = int_field;
  ge = none;
  le = none;
  validates = no_validator;
}

abbrev pub upstream_dns_config : SiteConfig
upstream_dns_config = record {
  name = "upstream_dns";
  default = null;
  description =
      "Upstream DNS used to resolve domains not managed by this MAAS (space-separated IP addresses)";
  help_text =
      some
        "Only used when MAAS is running its own DNS server. This value is used as the value of 'forwarders' in the DNS server config.";
  field = address_list_field;
  ge = none;
  le = none;
  validates = no_validator;
}

abbrev pub dnssec_validation_config : SiteConfig
dnssec_validation_config = record {
  name = "dnssec_validation";
  default = text "auto";
  description = "Enable DNSSEC validation of upstream zones";
  help_text =
      some
        "Only used when MAAS is running its own DNS server. This value is used as the value of 'dnssec_validation' in the DNS server config.";
  field = enum_field dnssec;
  ge = none;
  le = none;
  validates = no_validator;
}

abbrev pub maas_internal_domain_config : SiteConfig
maas_internal_domain_config = record {
  name = "maas_internal_domain";
  default = text "maas-internal";
  description = "Domain name used by MAAS for internal mapping of MAAS provided services.";
  help_text =
      some
        "This domain should not collide with an upstream domain provided by the set upstream DNS.";
  field = str_field;
  ge = none;
  le = none;
  validates = on_text validate_internal_domain;
}

abbrev pub dns_trusted_acl_config : Library → SiteConfig
dns_trusted_acl_config lib = record {
  name = "dns_trusted_acl";
  default = null;
  description =
      "List of external networks (not previously known), that will be allowed to use MAAS for DNS resolution.";
  help_text =
      some
        "MAAS keeps a list of networks that are allowed to use MAAS for DNS resolution. This option allows to add extra networks (not previously known) to the trusted ACL where this list of networks is kept. It also supports specifying IPs or ACL names.";
  field = str_field;
  ge = none;
  le = none;
  validates = on_text (validate_trusted_acl lib);
}

abbrev pub allow_only_trusted_transfers_config : SiteConfig
allow_only_trusted_transfers_config = record {
  name = "allow_only_trusted_transfers";
  default = bool true;
  description = "Allow only trusted zone transfers";
  help_text =
      some
        "A boolean value to allow only zone transfers from trusted sources. If set to false, zone transfers from all sources will be allowed";
  field = bool_field;
  ge = none;
  le = none;
  validates = no_validator;
}

abbrev pub remote_syslog_config : Library → SiteConfig
remote_syslog_config lib = record {
  name = "remote_syslog";
  default = null;
  description = "Remote syslog server to forward machine logs";
  help_text =
      some
        "A remote syslog server that MAAS will set on enlisting, commissioning, testing, and deploying machines to send all log messages. Clearing this value will restore the default behaviour of forwarding syslog to MAAS.";
  field = str_field;
  ge = none;
  le = none;
  validates = on_text (validate_remote_syslog lib);
}

abbrev pub maas_syslog_port_config : SiteConfig
maas_syslog_port_config = record {
  name = "maas_syslog_port";
  default = int (pos 5247);
  description = "Port to bind the MAAS built-in syslog (default: 5247)";
  help_text = some "Defines the port used to bind the built-in syslog. The default port is 5247.";
  field = int_field;
  ge = none;
  le = none;
  validates = on_port validate_syslog_port;
}

abbrev pub active_discovery_interval_config : SiteConfig
active_discovery_interval_config = record {
  name = "active_discovery_interval";
  default = int (pos 10800);
  description = "Active subnet mapping interval";
  help_text =
      some
        "When enabled, each rack will scan subnets enabled for active mapping. This helps ensure discovery information is accurate and complete.";
  field = enum_field active_discovery_interval;
  ge = none;
  le = none;
  validates = no_validator;
}

abbrev pub default_boot_interface_link_type_config : SiteConfig
default_boot_interface_link_type_config = record {
  name = "default_boot_interface_link_type";
  default = text "auto";
  description = "Default boot interface IP Mode";
  help_text =
      some "IP Mode that is applied to the boot interface on a node when it is commissioned.";
  field = enum_field interface_link_type;
  ge = none;
  le = none;
  validates = no_validator;
}
