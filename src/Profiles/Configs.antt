-- ===== src/Profiles/Configs.antt =====
-- `SiteConfigFactory` of db/models/global_site_config.py: the config classes that a profile may set.
mod Network
mod Deployment
mod Limits
mod Services
use maas_site_manager.Common.{String, List, [], ◌∷◌, map}
use maas_site_manager.Profiles.Values.{SiteConfig, Value}
use maas_site_manager.Profiles.Addresses.{Library}
use maas_site_manager.Profiles.Configs.Network.{
  theme_config, kernel_opts_config, maas_proxy_port_config, use_peer_proxy_config,
  prefer_v4_proxy_config, default_dns_ttl_config, upstream_dns_config, dnssec_validation_config,
  maas_internal_domain_config, dns_trusted_acl_config, allow_only_trusted_transfers_config,
  remote_syslog_config, maas_syslog_port_config, active_discovery_interval_config,
  default_boot_interface_link_type_config,
}
use maas_site_manager.Profiles.Configs.Deployment.{
  default_o_system_config, default_distro_series_config, default_min_hwe_kernel_config,
  enable_kernel_crash_dump_config, default_storage_layout_config,
  commissioning_distro_series_config, enable_third_party_drivers_config,
  enable_disk_erasing_on_release_config, disk_erase_with_secure_erase_config,
  disk_erase_with_quick_erase_config, boot_images_auto_import_config, boot_images_no_proxy_config,
  curtin_verbose_config, force_v1_network_yaml_config, enable_analytics_config,
  completed_intro_config,
}
use maas_site_manager.Profiles.Configs.Limits.{
  max_node_commissioning_results_config, max_node_testing_results_config,
  max_node_installation_results_config, max_node_release_results_config,
  max_node_deployment_results_config, subnet_ip_exhaustion_threshold_count_config,
  release_notifications_config, use_rack_proxy_config, node_timeout_config,
  prometheus_enabled_config, prometheus_push_gateway_config, prometheus_push_interval_config,
  promtail_enabled_config, promtail_port_config,
}
use maas_site_manager.Profiles.Configs.Services.{
  enlist_commissioning_config, maas_auto_ipmi_user_config,
  maas_auto_ipmi_user_privilege_level_config, maas_auto_ipmi_cipher_suite_id_config,
  maas_auto_ipmi_workaround_flags_config, ntp_servers_config, ntp_external_only_config,
  hardware_sync_interval_config, tls_cert_expiration_notification_enabled_config,
  tls_cert_expiration_notification_interval_config, session_length_config,
  refresh_token_duration_config, auto_vlan_creation_config, enable_http_proxy_config,
  windows_kms_host_config,
}

-- `ALL_CONFIGS`, whose keys are the names of its values
abbrev pub all_configs : Library → List SiteConfig
all_configs lib =
    theme_config
    ∷ kernel_opts_config
    ∷ enable_http_proxy_config
    ∷ maas_proxy_port_config
    ∷ use_peer_proxy_config
    ∷ prefer_v4_proxy_config
    ∷ default_dns_ttl_config
    ∷ upstream_dns_config
    ∷ dnssec_validation_config
    ∷ maas_internal_domain_config
    ∷ dns_trusted_acl_config lib
    ∷ allow_only_trusted_transfers_config
    ∷ remote_syslog_config lib
    ∷ maas_syslog_port_config
    ∷ active_discovery_interval_config
    ∷ default_boot_interface_link_type_config
    ∷ default_o_system_config
    ∷ default_distro_series_config
    ∷ default_min_hwe_kernel_config
    ∷ enable_kernel_crash_dump_config
    ∷ default_storage_layout_config
    ∷ commissioning_distro_series_config
    ∷ enable_third_party_drivers_config
    ∷ enable_disk_erasing_on_release_config
    ∷ disk_erase_with_secure_erase_config
    ∷ disk_erase_with_quick_erase_config
    ∷ boot_images_auto_import_config
    ∷ boot_images_no_proxy_config
    ∷ curtin_verbose_config
    ∷ force_v1_network_yaml_config
    ∷ enable_analytics_config
    ∷ completed_intro_config
    ∷ max_node_commissioning_results_config
    ∷ max_node_testing_results_config
    ∷ max_node_installation_results_config
    ∷ max_node_release_results_config
    ∷ max_node_deployment_results_config
    ∷ subnet_ip_exhaustion_threshold_count_config
    ∷ release_notifications_config
    ∷ use_rack_proxy_config
    ∷ node_timeout_config
    ∷ prometheus_enabled_config
    ∷ prometheus_push_gateway_config
    ∷ prometheus_push_interval_config
    ∷ promtail_enabled_config
    ∷ promtail_port_config
    ∷ enlist_commissioning_config
    ∷ maas_auto_ipmi_user_config
    ∷ maas_auto_ipmi_user_privilege_level_config
    ∷ maas_auto_ipmi_cipher_suite_id_config
    ∷ maas_auto_ipmi_workaround_flags_config
    ∷ ntp_servers_config lib
    ∷ ntp_external_only_config
    ∷ hardware_sync_interval_config lib
    ∷ session_length_config
    ∷ refresh_token_duration_config
    ∷ tls_cert_expiration_notification_enabled_config
    ∷ tls_cert_expiration_notification_interval_config
    ∷ auto_vlan_creation_config
    ∷ windows_kms_host_config
    ∷ []

-- `DEFAULT_CONFIG`
abbrev pub default_config : Library → List (String × Value)
default_config lib = map (λ c. (c.name, c.default)) (all_configs lib)
