-- ===== src/Tests.antt =====
-- Runs of the definitions on concrete input, and the theorems at such input.
mod Claim
mod Storage
mod Net
mod Suite
mod Memory
mod Move
mod Cluster
mod Create
mod Failover
mod Qemu
mod Names
mod Status
mod Vm
mod Images
mod Targets
mod InfoFile
