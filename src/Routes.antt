-- ===== src/Routes.antt =====
-- routes/: the handlers, and what guards them.
pub mod Dashboard
pub mod Relay
pub mod Closes
pub mod Token
pub mod Cookies
pub mod Gate
pub mod Login
pub mod Account
pub mod Documents
pub mod Envelopes
pub mod EnvelopeView
pub mod Sign
pub mod Signing
pub mod Validations
pub mod Previews
pub mod Uploads
pub mod Table
pub mod Verify
pub mod Public
pub mod Quiet
pub mod Delegation
