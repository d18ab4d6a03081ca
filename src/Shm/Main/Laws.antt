-- ===== src/Shm/Main/Laws.antt =====
-- Whether the accesses of the two stay in the segment, and what happens where it is not attached.
