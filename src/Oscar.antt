-- ===== src/Oscar.antt =====
-- timps/oscar/: the OSCAR protocol.
pub mod Flap
pub mod Snac
pub mod Userinfo
pub mod Sncmp
pub mod Im
