-- ===== src/Tests.antt =====
-- Runs of the model on concrete input, and each theorem that has hypotheses at such an input.
mod Nodes
mod Messages
mod Streams
mod Exchange
mod Delivery
mod Handlers
mod Pings
mod Links
mod Proxies
mod Resolvers
mod Sockets
mod Logins
mod Certificates
mod Shared
mod Settings
