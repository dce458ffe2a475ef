-- ===== src/J2rpc/Tests.antt =====
-- Runs of the server on concrete inputs: values are texts, a service `Echo` with a method `SayHi`
-- that answers with its argument, and one `Boom` that panics.
pub mod Samples
pub mod Naming
pub mod Serving
