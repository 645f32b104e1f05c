-- ===== src/Parameters.antt =====
-- loudmouth/lm-data-objects.c: whom to authenticate and what to connect to.
pub mod Auth
pub mod Connecting
pub mod Lifetime
