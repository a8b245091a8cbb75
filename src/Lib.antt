-- ===== src/Lib.antt =====
-- The demos of AndroidSourceLearn: Demos/BinderCDemo, a service manager, a server and a client in C
-- that speak to each other through the kernel's binder driver; Demos/BinderCppDemo, a service over
-- libbinder; and Demos/HelloDriver, a character device with its test program.
--
-- A process marshals a request into a `struct binder_io` (a parcel), `binder_call` writes it to the
-- driver and waits; `binder_loop` in the other process reads it, `binder_parse` takes the commands
-- of the read buffer apart and calls a handler with the request and with an empty reply, and the
-- reply goes back. The handler of service_manager.c keeps the list of services by name; that of
-- binder_server.c says hello.
--
-- Memory is the byte-addressed memory behind the C pointers, and Abi what the code takes from
--   linux/android/binder.h: the layout of an object, the constants, the reading of a transaction. A
--   `size_t` and a pointer have 64 bits; arithmetic of sizes wraps, an address is a number.
-- Bio is `struct binder_io` with the functions `bio_*` of Demos/BinderCDemo/binder4Server.c. Its
--   children are about where the writers write (Safety) and about what readers find (Message for
--   words and strings, Objects for references). The word `flags` is a record of its four bits.
-- Binder is the rest of binder4Server.c: Commands for `binder_write` and the commands, Parse for
--   `binder_parse`, Call for `binder_call` and `binder_loop`, Open for `binder_open`,
--   `binder_close` and `binder_become_context_manager`. No caller reads the result of
--   `binder_write`, so what a process writes is a trace of commands. What the driver answers to
--   each ioctl is a parameter, a list of answers that may depend on the request; when they are
--   used up, the process waits. What a process does with transactions is the record `Service`.
--   Incoming lists the commands that the driver sends, Reference is a plain interpreter of them,
--   and Runs (with Dispatch) compares `binder_parse` to it; under Call, Deliveries, Verdicts and
--   Rounds do the same for `binder_loop`, and Handled (with Taken) follows the state of a
--   process through the transactions that it is sent; Parse/Replied says which of these a
--   process has replied to. The comparisons assume of the kernel header that its codes differ
--   and that a transaction is read from the bytes of its struct.
-- ServiceManager is Demos/BinderCDemo/service_manager.c: Strings for `str8` and `str16eq`,
--   Access for the SELinux checks, over a record with the answers of libselinux and libcutils,
--   Audit for `audit_callback`, Registry for `svclist` with `find_svc`, `do_find_service`,
--   `do_add_service` and `svcinfo_death`, Handler for `svcmgr_handler`, Histories for the
--   manager over time, Specification and Promises for the map from names to handles that it
--   stands for, and Main for `main`, which plugs the handler into `binder_loop`. Registry/Views
--   is the quotient of the service lists by what look-ups see, Commuting exchanges two
--   registrations; Handler/Staying is about where the handler writes, Handler/Ignored about what
--   its commands leave alone, and Main/Delivered (with Main/Handling) about `main` for all that
--   the driver delivers. What `malloc` and libselinux answer over time is the record
--   `Environment`. A node carries the address that `malloc` gave it; a cookie of a death
--   notification is the address of its node, and one that is the address of no node changes
--   nothing; a security context is a pointer; `none` is an `abort()`.
-- HelloServer and HelloClient are Demos/BinderCDemo/binder_server.c and binder_client.c, and
--   Protocol joins their requests to the manager's handler. Its children are whole exchanges:
--   Replies and Exchange for a look-up, Registration and Registering for the way of a
--   registration to the manager, Publishing for its way back and Publication for both, Finding
--   for a look-up after it, Listing (with ListReply) for a request to list, Greeting for the
--   client's `main`. What the driver carries from one process to another is stated by records
--   (`Hands`, `Translates`, `Conveys`, `Carries`) that copy the data that a BC_TRANSACTION or a
--   BC_REPLY names and translate handles. The child Calls of HelloServer is about calls of its
--   handler; the children Main are the two programs' `main`, for the server with Delivered (and
--   Counting, Staying) about all that the driver delivers.
-- HelloCpp is the same service over libbinder, Demos/BinderCppDemo/BnHelloService.cpp and
--   BpHelloService.cpp. The class Parcel is a record of operations, with the order in which a
--   delivered parcel is read as its laws (Fifo); the transport is a parameter. Programs is the
--   `main` of BinderServer.cpp and of BinderClient.cpp, over the manager of libbinder as a
--   record with laws.
-- HelloDriver is Demos/HelloDriver/hello_drv.c, over counts of what is registered with the kernel
--   and with the number of bytes that a transfer really copies as a parameter. Its child Program is
--   the test program Demos/HelloDriver/hello_drv_test.c.
-- Tests holds concrete surroundings and runs.
--
-- The fuel of `binder_parse` is the size of the read buffer and one. Every round of its loop moves
-- on by the four bytes of a command word at least, so that it is enough. The fuel of `digits`, for
-- `%d`, is the number and one, which is more than it has digits. That of `printed`, for `%s`, is
-- the size of the buffer, whose last byte is a terminator.
--
-- Not modelled: the service manager with VENDORSERVICEMANAGER; `binder_set_maxthreads`, an ioctl
-- without a result; the log output of the C demos; binder4Client.c, a copy of binder4Server.c;
-- Demos/HelloModule, which prints; the generated files in Demos/HelloDriver/build. BinderClient.cpp
-- is modelled without the stray characters in front of its first line.
-- What C leaves undefined is a result of its own where the code can reach it (the write past the
-- array `name` in `hello_service_handler`, the call through a death notification in a process that
-- links to no death); an address of no node changes nothing in `svcinfo_death`.
pub mod Prelude
pub mod Memory
pub mod Abi
pub mod Bio
pub mod Binder
pub mod ServiceManager
pub mod HelloServer
pub mod HelloClient
pub mod HelloCpp
pub mod HelloDriver
pub mod Protocol
pub mod Tests
