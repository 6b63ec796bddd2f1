-- ===== src/Tests/Limits.antt =====
-- The rate limit on the small organization of Tests/Data.antt.
