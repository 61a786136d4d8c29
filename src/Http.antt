-- ===== src/Http.antt =====
-- crates/http-adapter: from a request to a bucket id, and from the store's answer to a response.
pub mod Host
pub mod Identity
pub mod Handler
pub mod Answers
pub mod App
