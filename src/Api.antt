-- ===== src/Api.antt =====
-- The web interface: the routers, their dependencies, and what a request does.
pub mod Platform
pub mod Auth
pub mod Users
pub mod Posts
pub mod Comments
pub mod Menus
pub mod Reports
pub mod Application
pub mod Access
pub mod SignIn
pub mod Failures
pub mod Health
pub mod Middleware
pub mod Sound
pub mod RoutersKeep
pub mod Composed
pub mod Invariant
pub mod Bodies
pub mod Main
pub mod Startup
pub mod LikesKeep
pub mod LikeJob
