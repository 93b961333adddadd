-- ===== src/Node/Certificates.antt =====
-- node/cert.go and node/lego.go: the certificate of a node. System has the calls of the operating
-- system and of lego; Account the user of the authority, Lego the certificates that it issues, and
-- Request the `requestCert` and `renewCertTask` of a controller.
pub mod System
pub mod Account
pub mod Lego
pub mod Request
pub mod Written
pub mod Signed
pub mod Present
pub mod Saved
pub mod Renewal
