-- ===== src/Schema.antt =====
-- Query parameters of requests: backend/msm/apiserver/schema.
pub mod Sorting
