-- ===== src/Req.antt =====
-- Requests of the client, as apps/blehostd/src/bhd_proto.c decodes them.
pub mod Types
pub mod Outcome
pub mod Gap
pub mod Gatt
pub mod AdvFields
pub mod Dispatch
pub mod Run
pub mod Answers
pub mod Keys
pub mod CallTypes
pub mod Bounds
