-- ===== src/Usage/Laws.antt =====
-- How close an estimate of usage is to what the model reports.
