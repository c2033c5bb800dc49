-- ===== src/Profiles/Configs/Limits.antt =====
-- The config classes of results, thresholds and reports (db/models/global_site_config.py).
use maas_site_manager.Common.{true, false, none, some}
use maas_site_manager.Profiles.Values.{
  SiteConfig, pos, null, bool, int, bool_field, int_field, str_field, no_validator,
}

abbrev pub max_node_commissioning_results_config : SiteConfig
max_node_commissioning_results_config = record {
  name = "max_node_commissioning_results";
  default = int (pos 10);
  description = "The maximum number of commissioning results runs which are stored";
  help_text = some "";
  field = int_field;
  ge = some 1;
  le = none;
  validates = no_validator;
}

abbrev pub max_node_testing_results_config : SiteConfig
max_node_testing_results_config = record {
  name = "max_node_testing_results";
  default = int (pos 10);
  description = "The maximum number of testing results runs which are stored";
  help_text = some "";
  field = int_field;
  ge = some 1;
  le = none;
  validates = no_validator;
}

abbrev pub max_node_installation_results_config : SiteConfig
max_node_installation_results_config = record {
  name = "max_node_installation_results";
  default = int (pos 3);
  description = "The maximum number of installation result runs which are stored";
  help_text = some "";
  field = int_field;
  ge = some 1;
  le = none;
  validates = no_validator;
}

abbrev pub max_node_release_results_config : SiteConfig
max_node_release_results_config = record {
  name = "max_node_release_results";
  default = int (pos 3);
  description = "The maximum number of release result runs which are stored";
  help_text = some "";
  field = int_field;
  ge = some 1;
  le = none;
  validates = no_validator;
}

abbrev pub max_node_deployment_results_config : SiteConfig
max_node_deployment_results_config = record {
  name = "max_node_deployment_results";
  default = int (pos 3);
  description = "The maximum number of deployment result runs which are stored";
  help_text = some "";
  field = int_field;
  ge = some 1;
  le = none;
  validates = no_validator;
}

abbrev pub subnet_ip_exhaustion_threshold_count_config : SiteConfig
subnet_ip_exhaustion_threshold_count_config = record {
  name = "subnet_ip_exhaustion_threshold_count";
  default = int (pos 16);
  description =
      "If the number of free IP addresses on a subnet becomes less than or equal to this threshold, an IP exhaustion warning will appear for that subnet";
  help_text = some "";
  field = int_field;
  ge = some 1;
  le = none;
  validates = no_validator;
}

abbrev pub release_notifications_config : SiteConfig
release_notifications_config = record {
  name = "release_notifications";
  default = bool true;
  description = "Enable or disable notifications for new MAAS releases.";
  help_text = some "";
  field = bool_field;
  ge = none;
  le = none;
  validates = no_validator;
}

abbrev pub use_rack_proxy_config : SiteConfig
use_rack_proxy_config = record {
  name = "use_rack_proxy";
  default = bool true;
  description = "Use DNS and HTTP metadata proxy on the rack controllers when a machine is booted.";
  help_text =
      some
        "All DNS and HTTP metadata traffic will flow through the rack controller that a machine is booting from. This isolated region controllers from machines.";
  field = bool_field;
  ge = none;
  le = none;
  validates = no_validator;
}

abbrev pub node_timeout_config : SiteConfig
node_timeout_config = record {
  name = "node_timeout";
  default = int (pos 30);
  description =
      "Time, in minutes, until the node times out during commissioning, testing, deploying, or entering rescue mode.";
  help_text =
      some
        "Commissioning, testing, deploying, and entering rescue mode all set a timeout when beginning. If MAAS does not hear from the node within the specified number of minutes the node is powered off and set into a failed status.";
  field = int_field;
  ge = some 1;
  le = none;
  validates = no_validator;
}

abbrev pub prometheus_enabled_config : SiteConfig
prometheus_enabled_config = record {
  name = "prometheus_enabled";
  default = bool false;
  description = "Enable Prometheus exporter";
  help_text =
      some
        "Whether to enable Prometheus exporter functions, including Cluster metrics endpoint and Push gateway (if configured).";
  field = bool_field;
  ge = none;
  le = none;
  validates = no_validator;
}

abbrev pub prometheus_push_gateway_config : SiteConfig
prometheus_push_gateway_config = record {
  name = "prometheus_push_gateway";
  default = null;
  description = "Address or hostname of the Prometheus push gateway.";
  help_text =
      some
        "Defines the address or hostname of the Prometheus push gateway where MAAS will send data to.";
  field = str_field;
  ge = none;
  le = none;
  validates = no_validator;
}

abbrev pub prometheus_push_interval_config : SiteConfig
prometheus_push_interval_config = record {
  name = "prometheus_push_interval";
  default = int (pos 60);
  description = "Interval of how often to send data to Prometheus (default: to 60 minutes).";
  help_text = some "The internal of how often MAAS will send stats to Prometheus in minutes.";
  field = int_field;
  ge = none;
  le = none;
  validates = no_validator;
}

abbrev pub promtail_enabled_config : SiteConfig
promtail_enabled_config = record {
  name = "promtail_enabled";
  default = bool false;
  description = "Enable streaming logs to Promtail.";
  help_text = some "Whether to stream logs to Promtail";
  field = bool_field;
  ge = none;
  le = none;
  validates = no_validator;
}

abbrev pub promtail_port_config : SiteConfig
promtail_port_config = record {
  name = "promtail_port";
  default = int (pos 5238);
  description = "TCP port of the Promtail Push API.";
  help_text = some "Defines the TCP port of the Promtail push API where MAAS will stream logs to.";
  field = int_field;
  ge = none;
  le = none;
  validates = no_validator;
}
