-- ===== src/KvStore/Hash.antt =====
-- raft/kv_store/hashmap.go: `hash`.
use distributed_dns.Base.{ℕ, ◌+◌, ◌*◌, ◌-◌, ◌%◌, ◌<◌, [], ◌∷◌, arith, GoString}

abbrev pub prime : ℕ
prime = 17003

-- The number of chains: `length` in restaccess_key_value.go.
abbrev pub buckets : ℕ
buckets = 101

-- `int(str[i] - 'A')`: the difference of two bytes wraps around before the conversion, so it is
-- never negative and the test `x < 0` never passes.
unfoldable pub offset : ℕ → ℕ
offset b = (b + 256 - b'A') % 256

-- One round of the loop. It stays below 2 ^ 63, the range of `int`.
unfoldable pub hash_round : ℕ → ℕ → ℕ
unfolding offset
hash_round res b = (res + (res * prime + offset b)) % 101

unfoldable pub hash_loop : ℕ → GoString → ℕ
hash_loop res [] = res
hash_loop res (b ∷ str) = hash_loop (hash_round res b) str

unfoldable pub hash : GoString → ℕ
unfolding hash_loop hash_round
hash str = hash_loop 1 str

hash_loop-lt : (res : ℕ) (str : GoString) → res < buckets → hash_loop res str < buckets
unfolding hash_loop hash_round
hash_loop-lt res [] h = h
hash_loop-lt res (b ∷ str) h = hash_loop-lt (hash_round res b) str (omega arith)

-- The hash of every string is an index of the table.
pub hash-lt : (str : GoString) → hash str < buckets
unfolding hash
hash-lt str = hash_loop-lt 1 str (omega arith)
