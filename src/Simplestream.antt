-- ===== src/Simplestream.antt =====
-- The synchronisation with Simplestreams: backend/msm/temporal.
pub mod Paths
