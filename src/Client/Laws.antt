-- ===== src/Client/Laws.antt =====
-- What a client sends: retries, waits and headers.
pub mod Rounds
pub mod Sending
pub mod Foreign
pub mod Adding
pub mod Failing
pub mod Versions
pub mod Carrying
