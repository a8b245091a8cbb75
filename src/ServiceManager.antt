-- ===== src/ServiceManager.antt =====
-- Demos/BinderCDemo/service_manager.c: the names of the services and the handles behind them.
pub mod Strings
pub mod Access
pub mod Audit
pub mod Registry
pub mod Handler
pub mod Histories
pub mod Specification
pub mod Promises
pub mod Main
