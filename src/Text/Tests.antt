-- ===== src/Text/Tests.antt =====
-- Examples for src/common/utils/string.cpp.
