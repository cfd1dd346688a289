-- ===== src/Domain.antt =====
-- The entities of internal/domain/types.go. Identifiers, statuses and modes are texts there and
-- here; an instant is the number of nanoseconds since Go's zero time, and a pointer an `Option`.
mod Identity
mod Access
mod Activity
mod CloudFront
pub use Identity.*
pub use Access.*
pub use Activity.*
pub use CloudFront.*
