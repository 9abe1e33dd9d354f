-- ===== src/Api.antt =====
-- libs/rust/ftl_api/src: the types that the kernel and its servers share.
pub mod ErrorCode
pub mod Handle
