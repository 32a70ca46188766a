-- ===== src/Examples.antt =====
-- Runs of the models on small inputs.
mod Permissions
mod Domains
mod Requests
mod Certificates
mod Numbers
mod Sessions
mod Walks
mod Signatures
mod Clients
mod Units
mod Types
mod Files
mod Permits
mod Manifests
mod Packages
mod Rpm
mod Paths
mod Rollbacks
