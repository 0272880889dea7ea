-- ===== src/Callisto.antt =====
-- The class-1 heterodyne driver (src/ecallisto_ng/drivers/callisto).
pub mod Protocol
pub mod Parser
pub mod Driver
