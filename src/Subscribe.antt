-- ===== src/Subscribe.antt =====
-- From the explorer to a subscription: frontend/app/composables/useKeplr.ts,
-- frontend/app/components/SubscribeModal.vue and the rows of frontend/app/components/TreeNode.vue.
pub mod Keplr
pub mod Form
pub mod Guards
pub mod WatchKey
pub mod Equals
pub mod Row
pub mod Modal
