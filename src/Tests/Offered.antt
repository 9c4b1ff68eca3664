-- ===== src/Tests/Offered.antt =====
-- The class of the entry that is shown, in the catalog.
