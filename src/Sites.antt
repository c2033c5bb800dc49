-- ===== src/Sites.antt =====
-- Sites and their enrolment: the `site`, `token` and `site_data` tables, the services over them and
-- the request handlers of the site API (backend/msm/apiserver/service/site.py, service/token.py,
-- site/handlers/enroll.py, site/auth.py) and of the user API (user/handlers/sites.py).
pub mod Tables
pub mod Tokens
pub mod Service
pub mod Handlers
pub mod Invariant
pub mod Enrolment
pub mod Lifecycle
pub mod Decisions
mod Tests
