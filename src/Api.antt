-- ===== src/Api.antt =====
-- src/api.rs: the handlers of the HTTP service and the responses that errors become. JSON and HTTP are
-- not modelled: a handler takes the values that were read and returns the values that are written.
pub mod Errors
pub mod Requests
pub mod Reads
