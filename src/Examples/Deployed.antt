-- ===== src/Examples/Deployed.antt =====
-- What is in a generated deployment.
