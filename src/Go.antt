-- ===== src/Go.antt =====
-- What the services use of Go's standard library: errors, texts, and the generated parts of the
-- environment.
pub mod Errors
pub mod Results
pub mod Strings
pub mod Numbers
pub mod Net
pub mod Json
pub mod Environment
