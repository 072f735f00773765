-- ===== src/Playground.antt =====
-- The terminal playground's own logic: waiting for a server, and starting one server for each model.
-- HTTP, the clock, processes and the log file are arguments: what each request answers, and when.
pub mod Polling
pub mod Servers
pub mod Tokens
pub mod Compare
pub mod UrlGuard
