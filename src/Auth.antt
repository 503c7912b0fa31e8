-- ===== src/Auth.antt =====
-- Sign-in and sessions: app/modules/auth, with app/core/security.py and app/common/rate_limit.py.
pub mod Security
pub mod TokenStore
pub mod RateLimit
pub mod Service
pub mod Tokens
pub mod Frame
pub mod Limits
pub mod States
pub mod Rotation
pub mod LikeValues
