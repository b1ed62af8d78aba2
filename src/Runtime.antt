-- ===== src/Runtime.antt =====
-- sdk/node/src/runtime.ts, runtime-package.ts and distribution.ts: where the runtime's program is found, and
-- how its process is started and stopped.
pub mod Bootstrap
pub mod Stderr
pub mod Distribution
pub mod Process
