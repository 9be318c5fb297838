-- ===== src/Proto.antt =====
-- The message protocol of apps/blehostd/src/bhd_proto.h and bhd_proto.c.
pub mod Numbers
pub mod Maps
pub mod Names
