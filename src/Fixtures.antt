-- ===== src/Fixtures.antt =====
-- Small stand-ins for the crates that the program calls, to run the models on. They model no code of
-- the repository.
pub mod Log
pub mod Codecs
pub mod Scan
pub mod Format
pub mod Data
