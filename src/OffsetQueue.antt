-- ===== src/OffsetQueue.antt =====
-- include/kafka/addons/UnorderedOffsetCommitQueue.h: the binary heap and the commit queue.
pub mod Heap
pub mod CommitQueue
