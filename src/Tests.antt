-- ===== src/Tests.antt =====
-- Small databases, and the theorems at concrete inputs.
mod Build
mod Runs
mod Found
mod Numbers
mod Text
mod Ctl
mod Registry
mod Nss
