-- ===== src/Tests.antt =====
-- Tests of the definitions, and the theorems at concrete inputs.
mod Configs
mod Data
mod Managers
mod Messages
mod Sockets
mod Tcp
mod Protos
mod Logs
mod Jsons
mod Https
mod Clients
mod Mains
mod Registries
mod Xmls
mod Envs
mod Redises
mod Mysqls
