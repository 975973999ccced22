-- ===== src/Serving/Session.antt =====
-- serving/turbine_serving/framework/session.py: device queues, module sets and transfer buffers.
pub mod WorkQueue
pub mod Pool
pub mod Modules
