-- ===== src/Runtime/OpReg.antt =====
-- core/shark_turbine/runtime/op_reg: the registration of custom operators, the selection of a
-- kernel from the arguments of a call, the building of its function and its dispatch.
pub mod Signature
pub mod Descriptors
pub mod Selection
pub mod CustomOp
pub mod Builder
pub mod Dispatch
