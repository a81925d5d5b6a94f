-- ===== src/Tests.antt =====
-- Runs on concrete data, and each theorem with hypotheses at an input that meets them.
mod Data
mod PlainCodec
mod Messages
mod Sockets
mod Worker
mod Requests
mod Cursors
mod Journey
mod Tokens
mod Again
mod Web
mod Interleaved
mod Fleet
mod Process
mod Urls
mod Support
