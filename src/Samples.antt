-- ===== src/Samples.antt =====
-- The sample applications of the client library in TypeScript: samples/node/src/sample.ts and
-- hsm-samples/node/src/hsm-sample.ts.
pub mod Runtime
pub mod Ending
pub mod Made
pub mod Basic
pub mod Hsm
