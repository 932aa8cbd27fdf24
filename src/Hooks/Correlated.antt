-- ===== src/Hooks/Correlated.antt =====
-- A pre event and the post event of the same tool use.
