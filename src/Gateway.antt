-- ===== src/Gateway.antt =====
-- apps/gateway: the REST gateway.
pub mod Quota
pub mod Plan
pub mod Team
pub mod Import
pub mod Limits
pub mod Webhooks
pub mod Rules
pub mod Preferences
pub mod Account
pub mod Keys
pub mod Latest
pub mod Auth0
pub mod Sso
pub mod Audit
pub mod Devices
pub mod Auth
pub mod ApiKey
pub mod Admin
pub mod Signup
pub mod Checkout
pub mod Tenancy
mod Tests
