-- ===== src/Profiles.antt =====
-- Site profiles: the global configuration that a site may be given
-- (backend/msm/apiserver/db/models/global_site_config.py), the service of
-- backend/msm/apiserver/service/site_profiles.py, and the handlers of
-- backend/msm/apiserver/user/handlers/site_profiles.py and backend/msm/apiserver/site/handlers/config.py.
pub mod Values
pub mod Validators
pub mod Addresses
pub mod Enums
pub mod Configs
pub mod Store
pub mod Handlers
pub mod Roundtrip
pub mod Patch
pub mod Validity
pub mod Post
mod Tests
