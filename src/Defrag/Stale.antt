-- ===== src/Defrag/Stale.antt =====
-- What sprdwl_defrag_recover of WIFI/defrag.c leaves behind.
