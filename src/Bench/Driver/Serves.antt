-- ===== src/Bench/Driver/Serves.antt =====
-- The benchmark against a server that answers every request with success.
