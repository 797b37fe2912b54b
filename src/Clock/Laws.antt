-- ===== src/Clock/Laws.antt =====
-- What the counter of Windows tells.
