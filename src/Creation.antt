-- ===== src/Creation.antt =====
-- daemon/pod/container.go: init, which makes the description of a container for the sandbox, and
-- completes the volumes and the files of its spec. What the container engine, the storage driver
-- and the host answer is a record of answers.
pub mod Spec
pub mod Describe
pub mod Volumes
pub mod Init
pub mod Growth
pub mod Reload
pub mod Recreation
pub mod Mounts
