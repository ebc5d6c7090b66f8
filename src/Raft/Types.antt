-- ===== src/Raft/Types.antt =====
-- raft_types.hpp: terms, indices and node ids are uint64_t; byte strings are lists of numbers.
use odyssey_tasks.Prelude.{ℕ, Bool, List}

pub data Role : Type 0 where
  follower precandidate candidate leader : Role

pub data EntryType : Type 0 where
  normal conf_change joint_conf_change snapshot : EntryType

pub record LogEntry : Type 0 where
  pub term : ℕ
  pub index : ℕ
  pub type : EntryType
  pub payload : List ℕ

pub record RequestVoteArgs : Type 0 where
  pub term : ℕ
  pub candidate_id : ℕ
  pub last_log_index : ℕ
  pub last_log_term : ℕ
  pub is_pre_vote : Bool

pub record RequestVoteReply : Type 0 where
  pub term : ℕ
  pub vote_granted : Bool

pub record AppendEntriesArgs : Type 0 where
  pub term : ℕ
  pub leader_id : ℕ
  pub prev_log_index : ℕ
  pub prev_log_term : ℕ
  pub entries : List LogEntry
  pub leader_commit : ℕ

pub record AppendEntriesReply : Type 0 where
  pub term : ℕ
  pub success : Bool
  pub match_index : ℕ

pub record InstallSnapshotArgs : Type 0 where
  pub term : ℕ
  pub leader_id : ℕ
  pub last_included_index : ℕ
  pub last_included_term : ℕ
  pub payload : List ℕ

pub record InstallSnapshotReply : Type 0 where
  pub term : ℕ
