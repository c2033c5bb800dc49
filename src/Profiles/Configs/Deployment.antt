-- ===== src/Profiles/Configs/Deployment.antt =====
-- The config classes of deployment and of images (db/models/global_site_config.py).
use maas_site_manager.Common.{true, false, none, some}
use maas_site_manager.Profiles.Values.{
  SiteConfig, bool, text, bool_field, str_field, enum_field, no_validator,
}
use maas_site_manager.Profiles.Enums.{storage_layout}

abbrev pub default_o_system_config : SiteConfig
default_o_system_config = record {
  name = "default_osystem";
  default = text "ubuntu";
  description = "Default operating system used for deployment";
  help_text = some "";
  field = str_field;
  ge = none;
  le = none;
  validates = no_validator;
}

abbrev pub default_distro_series_config : SiteConfig
default_distro_series_config = record {
  name = "default_distro_series";
  default = text "noble";
  description = "Default OS release used for deployment";
  help_text = some "";
  field = str_field;
  ge = none;
  le = none;
  validates = no_validator;
}

abbrev pub default_min_hwe_kernel_config : SiteConfig
default_min_hwe_kernel_config = record {
  name = "default_min_hwe_kernel";
  default = text "";
  description = "Default Minimum Kernel Version";
  help_text = some "The default minimum kernel version used on all new and commissioned nodes.";
  field = str_field;
  ge = none;
  le = none;
  validates = no_validator;
}

abbrev pub enable_kernel_crash_dump_config : SiteConfig
enable_kernel_crash_dump_config = record {
  name = "enable_kernel_crash_dump";
  default = bool false;
  description = "Enable the kernel crash dump feature in deployed machines.";
  help_text = some "Enable the collection of kernel crash dump when a machine is deployed.";
  field = bool_field;
  ge = none;
  le = none;
  validates = no_validator;
}

abbrev pub default_storage_layout_config : SiteConfig
default_storage_layout_config = record {
  name = "default_storage_layout";
  default = text "flat";
  description = "Default storage layout";
  help_text = some "Storage layout that is applied to a node when it is commissioned.";
  field = enum_field storage_layout;
  ge = none;
  le = none;
  validates = no_validator;
}

abbrev pub commissioning_distro_series_config : SiteConfig
commissioning_distro_series_config = record {
  name = "commissioning_distro_series";
  default = text "noble";
  description = "Default Ubuntu release used for commissioning";
  help_text = some "";
  field = str_field;
  ge = none;
  le = none;
  validates = no_validator;
}

abbrev pub enable_third_party_drivers_config : SiteConfig
enable_third_party_drivers_config = record {
  name = "enable_third_party_drivers";
  default = bool true;
  description = "Enable the installation of proprietary drivers (i.e. HPVSA)";
  help_text = some "";
  field = bool_field;
  ge = none;
  le = none;
  validates = no_validator;
}

abbrev pub enable_disk_erasing_on_release_config : SiteConfig
enable_disk_erasing_on_release_config = record {
  name = "enable_disk_erasing_on_release";
  default = bool false;
  description = "Erase nodes' disks prior to releasing";
  help_text = some "Forces users to always erase disks when releasing.";
  field = bool_field;
  ge = none;
  le = none;
  validates = no_validator;
}

abbrev pub disk_erase_with_secure_erase_config : SiteConfig
disk_erase_with_secure_erase_config = record {
  name = "disk_erase_with_secure_erase";
  default = bool true;
  description = "Use secure erase by default when erasing disks";
  help_text =
      some
        "Will only be used on devices that support secure erase.  Other devices will fall back to full wipe or quick erase depending on the selected options.";
  field = bool_field;
  ge = none;
  le = none;
  validates = no_validator;
}

abbrev pub disk_erase_with_quick_erase_config : SiteConfig
disk_erase_with_quick_erase_config = record {
  name = "disk_erase_with_quick_erase";
  default = bool false;
  description = "Use quick erase by default when erasing disks.";
  help_text = some "This is not a secure erase; it wipes only the beginning and end of each disk.";
  field = bool_field;
  ge = none;
  le = none;
  validates = no_validator;
}

abbrev pub boot_images_auto_import_config : SiteConfig
boot_images_auto_import_config = record {
  name = "boot_images_auto_import";
  default = bool true;
  description = "Automatically import/refresh the boot images every 60.0 minutes";
  help_text = some "";
  field = bool_field;
  ge = none;
  le = none;
  validates = no_validator;
}

abbrev pub boot_images_no_proxy_config : SiteConfig
boot_images_no_proxy_config = record {
  name = "boot_images_no_proxy";
  default = bool false;
  description =
      "Set no_proxy with the image repository address when MAAS is behind (or set with) a proxy.";
  help_text =
      some
        "By default, when MAAS is behind (and set with) a proxy, it is used to download images from the image repository. In some situations (e.g. when using a local image repository) it doesn't make sense for MAAS to use the proxy to download images because it can access them directly. Setting this option allows MAAS to access the (local) image repository directly by setting the no_proxy variable for the MAAS env with the address of the image repository.";
  field = bool_field;
  ge = none;
  le = none;
  validates = no_validator;
}

abbrev pub curtin_verbose_config : SiteConfig
curtin_verbose_config = record {
  name = "curtin_verbose";
  default = bool true;
  description =
      "Run the fast-path installer with higher verbosity. This provides more detail in the installation logs";
  help_text = some "";
  field = bool_field;
  ge = none;
  le = none;
  validates = no_validator;
}

abbrev pub force_v1_network_yaml_config : SiteConfig
force_v1_network_yaml_config = record {
  name = "force_v1_network_yaml";
  default = bool false;
  description =
      "Always use the legacy v1 YAML (rather than Netplan format, also known as v2 YAML) when composing the network configuration for a machine.";
  help_text = some "";
  field = bool_field;
  ge = none;
  le = none;
  validates = no_validator;
}

abbrev pub enable_analytics_config : SiteConfig
enable_analytics_config = record {
  name = "enable_analytics";
  default = bool true;
  description = "Enable Google Analytics in MAAS UI to shape improvements in user experience";
  help_text = some "";
  field = bool_field;
  ge = none;
  le = none;
  validates = no_validator;
}

abbrev pub completed_intro_config : SiteConfig
completed_intro_config = record {
  name = "completed_intro";
  default = bool false;
  description = "Marks if the initial intro has been completed";
  help_text = some "";
  field = bool_field;
  ge = none;
  le = none;
  validates = no_validator;
}
