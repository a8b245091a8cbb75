-- ===== src/Binder.antt =====
-- The user side of the Binder driver in Demos/BinderCDemo/binder4Server.c.
pub mod Commands
pub mod Parse
pub mod Call
pub mod Open
