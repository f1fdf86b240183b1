-- ===== src/Printf/Tests.antt =====
-- Numbers and formats on which the theorems are run.
