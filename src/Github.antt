-- ===== src/Github.antt =====
-- internal/github: the sidecar's boundary with GitHub.
pub mod Results
pub mod Dtos
pub mod Documents
pub mod Cache
pub mod Errors
pub mod Client
pub mod Reviews
pub mod Comments
pub mod Files
pub mod Links
pub mod Pages
pub mod Pulls
pub mod Conversation
pub mod Auth
pub mod Sample
mod Tests
