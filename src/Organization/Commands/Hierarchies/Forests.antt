-- ===== src/Organization/Commands/Hierarchies/Forests.antt =====
-- The hierarchies under a new agent, and under all commands.
use gereh.Prelude.{nat_eq}
