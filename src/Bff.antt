-- ===== src/Bff.antt =====
-- apps/bff: the GraphQL backend for the dashboard.
pub mod Breaker
pub mod Redis
pub mod Source
pub mod Resolvers
pub mod Pages
