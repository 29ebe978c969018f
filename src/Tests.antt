-- ===== src/Tests.antt =====
-- Runs of the model on small inputs.
mod Toy
mod Logins
mod Stores
mod Requests
mod Passkeys
mod Credentials
mod Clients
mod Directories
mod Peers
mod Conformances
mod SoftKeys
