-- ===== src/Mdnssd.antt =====
-- mdnssd: discovery of services by multicast DNS.
pub mod Response
pub mod Cache
pub mod Browser
pub mod Types
