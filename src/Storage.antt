-- ===== src/Storage.antt =====
-- The bytes of images on their way through the server: the streamed answers of
-- backend/msm/apiserver/site/handlers/images.py, the upload target of
-- backend/msm/apiserver/user/handlers/images.py, and the downloads of
-- backend/msm/temporal/activities/images.py.
pub mod Chunks
pub mod Answers
pub mod Delivery
pub mod Upload
pub mod Download
mod Tests
