-- ===== src/Rbac.antt =====
-- src/shared/rbac and src/shared/guards: the pure rules of who may do what.
pub mod Authority
pub mod Lifecycle
pub mod Owners
pub mod Conversations
pub mod Guard
