-- ===== src/Retrieval.antt =====
-- knowledge/retrieval.go: which memories are candidates and eligible, how they are scored and ranked, and
-- how a provider reorders the ranked ones.
pub mod Search
pub mod Memories
pub mod Subjects
pub mod Scores
pub mod Candidates
pub mod Retrieve
pub mod Sound
pub mod Answers
pub mod Available
pub mod Rerank
pub mod Conserved
pub mod Kept
