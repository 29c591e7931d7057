-- ===== src/Clock/Saturate.antt =====
-- Saturating arithmetic on durations: the result is the number of nanoseconds that fits best.
