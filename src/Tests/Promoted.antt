-- ===== src/Tests/Promoted.antt =====
-- A promotion with a file writer that writes whole files.
