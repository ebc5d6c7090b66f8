-- ===== src/Raft/Storage.antt =====
-- raft_storage.hpp and raft_storage.cpp: the in-memory log behind a dummy entry at the snapshot.
-- Each method holds the storage's own mutex from start to end, so a method is one function.
pub mod Shape
use odyssey_tasks.Prelude.{
  ℕ, ◌-◌, Bool, ◌||◌, Option, none, List, [], ◌∷◌, ◌++◌, length, get_or, take, drop, ltb, leb, ◌==◌,
  if◌then◌else◌,
}
use odyssey_tasks.Raft.Types.{LogEntry, normal}

pub record Storage : Type 0 where
  pub current_term : ℕ
  pub voted_for : Option ℕ
  pub log : List LogEntry
  pub snapshot_index : ℕ
  pub snapshot_term : ℕ
  pub snapshot_data : List ℕ

abbrev pub dummy : ℕ → ℕ → LogEntry
dummy index term = record { term = term; index = index; type = normal; payload = [] }

unfoldable pub init : Storage
init = record {
  current_term = 0;
  voted_for = none;
  log = dummy 0 0 ∷ [];
  snapshot_index = 0;
  snapshot_term = 0;
  snapshot_data = [];
}

unfoldable pub save_hard_state : Storage → ℕ → Option ℕ → Storage
save_hard_state s term voted_for = record s { current_term = term; voted_for = voted_for }

-- `log_.back()`. The log is never empty; the value given for the empty list is not used.
unfoldable pub back : List LogEntry → LogEntry
back [] = dummy 0 0
back (e ∷ []) = e
back (e ∷ f ∷ es) = back (f ∷ es)

unfoldable pub get_last_index : Storage → ℕ
get_last_index s = (back s.log).index

unfoldable pub get_last_term : Storage → ℕ
get_last_term s = (back s.log).term

unfoldable pub get_term : Storage → ℕ → ℕ
unfolding get_last_index
get_term s index =
    if index == s.snapshot_index
    then s.snapshot_term
    else if ltb index s.snapshot_index || ltb (get_last_index s) index
    then 0
    else let offset = index - s.snapshot_index in
      if ltb offset (length s.log) then (get_or s.log offset (dummy 0 0)).term else 0

unfoldable pub append : Storage → List LogEntry → Storage
append s entries = record s { log = s.log ++ entries }

unfoldable pub truncate : Storage → ℕ → Storage
truncate s from_index =
    if leb from_index s.snapshot_index
    then s
    else let offset = from_index - s.snapshot_index in
      if ltb offset (length s.log) then record s { log = take offset s.log } else s

unfoldable pub get_entries : Storage → ℕ → ℕ → List LogEntry
get_entries s start_index max_count =
    if leb start_index s.snapshot_index
    then []
    else take max_count (drop (start_index - s.snapshot_index) s.log)

unfoldable pub apply_snapshot : Storage → ℕ → ℕ → List ℕ → Storage
apply_snapshot s index term payload = record s {
  snapshot_index = index;
  snapshot_term = term;
  snapshot_data = payload;
  log = dummy index term ∷ [];
}
