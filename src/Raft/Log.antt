-- ===== src/Raft/Log.antt =====
-- Descriptions of a log that do not follow the code: its last term, and when a candidate's log is at
-- least as up-to-date.
use distributed_dns.Base.{◌≡◌, ◌⊎◌, List, [], ◌∷◌, length}
use distributed_dns.Base.Int.{ℤ, pos, minus_one, ◌<ℤ◌, ◌≤ℤ◌}
use distributed_dns.Raft.Protos.{LogEntry, RequestVoteMessage}

-- The term of the last entry, and -1 for an empty log.
unfoldable pub last_term_from : ℤ → List LogEntry → ℤ
last_term_from t [] = t
last_term_from t (e ∷ log) = last_term_from e.term log

unfoldable pub last_term : List LogEntry → ℤ
unfolding last_term_from
last_term log = last_term_from minus_one log

-- The index of the last entry, and -1 for an empty log.
unfoldable pub last_index : List LogEntry → ℤ
last_index [] = minus_one
last_index (e ∷ log) = pos (length log)

-- Logs are compared by their last term, then by their length.
abbrev pub AtLeast : RequestVoteMessage → List LogEntry → Type 0
AtLeast msg log =
    (last_term log <ℤ msg.last_log_term)
    ⊎ ((msg.last_log_term ≡ last_term log) × (last_index log ≤ℤ msg.last_log_index))
