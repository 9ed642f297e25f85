-- ===== src/Clients.antt =====
-- clients/: the clients of the composed services.
pub mod Types
pub mod Zero
pub mod Calls
pub mod Envelope
pub mod Document
pub mod Signflow
pub mod Preview
pub mod Offer
pub mod Verify
