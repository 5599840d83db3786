-- ===== src/Http.antt =====
-- http/: the text helpers, the header and parameter container, URLs and their parts.
pub mod Trim
pub mod Values
pub mod Method
pub mod Uri
pub mod Search
pub mod Cookie
pub mod Date
pub mod Auth
pub mod Url
mod Tests
