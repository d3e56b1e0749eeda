-- ===== src/AllocAction/Tests.antt =====
-- The tables of MemDetector/include/intern/AllocAction.hpp at one operation.
