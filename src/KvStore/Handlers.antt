-- ===== src/KvStore/Handlers.antt =====
-- raft/kv_store/restaccess_key_value.go: the HTTP handlers of the store, each under its mutex from
-- start to end. A request is given by what net/http and mux report of it: the error of `ParseForm`,
-- the form value "value" and the path variable "key". A handler returns the store, the file that
-- `Persist` wrote and the response.
use distributed_dns.Base.{
  ℕ, Option, none, some, [], ◌∷◌, ◌++◌, GoString, bytes, str_eq, StringMap, insert, Run, ok, ◌>>=◌,
  if◌then◌else◌,
}
use distributed_dns.KvStore.Store.{Store, invalid, push, get, put, delete}

pub record Request : Type 0 where
  pub form_error : Option GoString
  pub value : GoString
  pub key : GoString

pub record Response : Type 0 where
  pub status : ℕ
  pub body : GoString

abbrev pub status_created : ℕ
status_created = 201

abbrev pub status_ok : ℕ
status_ok = 200

abbrev pub status_accepted : ℕ
status_accepted = 202

abbrev newline : ℕ
newline = 10

abbrev pub pair_lines : GoString → GoString → GoString
pair_lines key value = bytes "Key = " ++ key ++ newline ∷ bytes "Value = " ++ value ++ newline ∷ []

abbrev pub value_line : GoString → GoString
value_line value = bytes "Value = " ++ value ++ newline ∷ []

abbrev pub removed_line : GoString → GoString
removed_line key = bytes "Removed Key = " ++ key ++ newline ∷ []

-- ReadCommand and WriteCommand compare the body with this line.
abbrev pub invalid_line : GoString
invalid_line = bytes "Invalid key value pair" ++ newline ∷ []

abbrev pub duplicate_line : GoString
duplicate_line = bytes "This key already exists"

abbrev pub form_error_line : GoString → GoString
form_error_line err = bytes "ParseForm() err: " ++ err

-- `kv.db_temp[key] = value`
abbrev pub remember : GoString → GoString → Store → Store
remember key value kv = record kv { db_temp = insert key value kv.db_temp }

-- `encode` is what gob writes for `db_temp`.
module _ {D : Type 0} (encode : StringMap GoString → D) where
  pub record Server : Type 0 where
    pub kv : Store
    pub file : Option D

  -- `Persist`, by `writeFile`
  abbrev pub persist : Store → Server
  persist kv = record { kv = kv; file = some (encode kv.db_temp) }

  -- The part of `PostHandler` under the mutex.
  unfoldable pub post_locked : Request → Store → Run (Server × Response)
  post_locked r kv = do
    duplicate ← get r.key kv
    kv' ← if str_eq duplicate invalid then push r.key r.value kv else ok kv
    ok (
        if str_eq duplicate invalid
        then (
          persist (remember r.key r.value kv'),
          record { status = status_created; body = pair_lines r.key r.value },
        )
        else (persist kv', record { status = status_created; body = duplicate_line }))

  unfoldable pub post_handler : Request → Server → Run (Server × Response)
  unfolding post_locked
  post_handler r s = elim r.form_error [
    | some err ↦ ok (s, record { status = status_created; body = form_error_line err })
    | none ↦ post_locked r s.kv
  ]

  unfoldable pub get_handler : Request → Server → Run (Server × Response)
  get_handler r s = do
    value ← get r.key s.kv
    ok (
      s,
      record {
        status = status_ok;
        body = if str_eq value invalid then invalid_line else value_line value;
      },
    )

  unfoldable pub put_locked : Request → Store → Run (Server × Response)
  put_locked r kv = do
    (kv', done) ← put r.key r.value kv
    ok (
        if done
        then (
          persist (remember r.key r.value kv'),
          record { status = status_accepted; body = pair_lines r.key r.value },
        )
        else (persist kv', record { status = status_accepted; body = invalid_line }))

  unfoldable pub put_handler : Request → Server → Run (Server × Response)
  unfolding put_locked
  put_handler r s = elim r.form_error [
    | some err ↦ ok (s, record { status = status_accepted; body = form_error_line err })
    | none ↦ put_locked r s.kv
  ]

  -- A deleted key stays in `db_temp`, with an empty value.
  unfoldable pub delete_handler : Request → Server → Run (Server × Response)
  delete_handler r s = do
    (kv', done) ← delete r.key s.kv
    ok (
        if done
        then (
          persist (remember r.key [] kv'),
          record { status = status_ok; body = removed_line r.key },
        )
        else (persist kv', record { status = status_ok; body = invalid_line }))
