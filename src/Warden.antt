-- ===== src/Warden.antt =====
-- The class `TrafficWarden` (include/traffic_warden.h, src/traffic_warden.cpp).
pub mod Broker
pub mod Topics
pub mod Routes
pub mod Pipeline
pub mod Startup
pub mod Gateway
