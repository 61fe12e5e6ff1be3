-- ===== src/Tests.antt =====
-- The theorems applied to concrete registries, containers, volumes and port mappings.
mod Pods
mod Containers
mod Volumes
mod Ports
mod Networks
mod Storage
mod Terminal
mod Work
mod Specs
mod Sandbox
mod Placing
mod Listings
mod Disks
mod Legacy
mod Making
mod Rules
