-- ===== src/Examples.antt =====
-- The programs of examples/, as users of the library. What they print is left out, except for the
-- messages that they show to their user.
pub mod Basic
pub mod Advanced
