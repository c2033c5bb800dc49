-- ===== src/Users.antt =====
-- User accounts: backend/msm/apiserver/service/user.py and user/handlers/users.py.
pub mod Tables
pub mod Service
pub mod Handlers
pub mod Requests
mod Changes
mod Steps
mod Renames
mod Admins
mod Conflicts
pub mod Accounts
pub mod Outcomes
pub mod Passwords
mod Tests
