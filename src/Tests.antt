-- ===== src/Tests.antt =====
-- The theorems at concrete inputs.
mod LimiterTests
mod NodeTests
mod CertificateTests
mod CoreTests
mod CounterTests
mod Samples
mod Hy2Tests
mod InboundTests
mod CoresTests
mod XrayTests
mod SyncTests
