-- ===== src/Images.antt =====
-- Boot sources, selections, assets, versions and items: backend/msm/apiserver/service/images.py and
-- user/handlers/bootassets.py, and the activity that removes stale versions.
pub mod Tables
pub mod Keys
pub mod Selections
pub mod Index
pub mod Purge
pub mod Retention
pub mod Available
pub mod Sources
pub mod Sync
pub mod Items
