-- ===== src/KvStore/Service/Defs.antt =====
-- The routes, the specification of a request on one key, and the invariant of the server.
use distributed_dns.Base.{
  ℕ, ◌≡◌, ◌≢◌, Option, none, some, List, [], ◌∷◌, GoString, bytes, Bool, true, false, ◌&&◌, str_eq,
  StringMap, lookup, Run, ok, ◌>>=◌, if◌then◌else◌,
}
use distributed_dns.KvStore.Store.{Store, invalid}
use distributed_dns.KvStore.View.{view, IsValid}
use distributed_dns.KvStore.Handlers.{
  Request, Response, Server, status_created, status_ok, status_accepted, pair_lines, value_line,
  removed_line, invalid_line, duplicate_line, post_handler, get_handler, put_handler,
  delete_handler,
}

pub data Method : Type 0 where
  post get put delete : Method

abbrev pub is_get : Method → Bool
is_get get = true
is_get _ = false

abbrev pub kvstore_key : GoString
kvstore_key = bytes "kvstore"

-- `KvstoreHandler`
abbrev pub kvstore_text : GoString
kvstore_text = bytes "KEY VALUE STORE !!!"

module _ {D : Type 0} (encode : StringMap GoString → D) where
  -- The routes of "/{key}".
  unfoldable pub serve : Method → Request → Server encode → Run (Server encode × Response)
  serve post r s = post_handler encode r s
  serve get r s = get_handler encode r s
  serve put r s = put_handler encode r s
  serve delete r s = delete_handler encode r s

  -- The routes of `StartKVStore`: a GET of "kvstore" is not a read of a key.
  unfoldable pub respond : Method → Request → Server encode → Run (Server encode × Response)
  unfolding serve
  respond m r s =
      if is_get m && str_eq r.key kvstore_key
      then ok (s, record { status = status_ok; body = kvstore_text })
      else serve m r s

  -- A client's session: the requests one after the other, with their responses.
  unfoldable pub session :
      List (Method × Request) → Server encode → Run (Server encode × List Response)
  session [] s = ok (s, [])
  session ((m, r) ∷ rs) s = do
    (s', resp) ← respond m r s
    (s'', resps) ← session rs s'
    ok (s'', resp ∷ resps)

-- A value that the store can hold: "Invalid" stands for no value.
abbrev pub IsProper : GoString → Type 0
IsProper v = v ≢ invalid

-- What a request makes of the value under its key, and the body of the response.
abbrev pub answer : Method → GoString → GoString → Option GoString → Option GoString × GoString
answer post k v none = (some v, pair_lines k v)
answer post k v (some w) = (some w, duplicate_line)
answer get k v none = (none, invalid_line)
answer get k v (some w) = (some w, value_line w)
answer put k v none = (none, invalid_line)
answer put k v (some w) = (some v, pair_lines k v)
answer delete k v none = (none, invalid_line)
answer delete k v (some w) = (none, removed_line k)

abbrev pub status_of : Method → ℕ
status_of post = status_created
status_of get = status_ok
status_of put = status_accepted
status_of delete = status_ok

-- The specification: a map, changed at one key.
abbrev pub spec_map : Method → Request → (GoString → Option GoString) → GoString → Option GoString
spec_map m r f j = if str_eq r.key j then (answer m r.key r.value (f r.key)).0 else f j

abbrev pub spec_response : Method → Request → (GoString → Option GoString) → Response
spec_response m r f = record { status = status_of m; body = (answer m r.key r.value (f r.key)).1 }

-- The specification of a route: a GET of "kvstore" is answered by the test page.
abbrev pub spec_respond : Method → Request → (GoString → Option GoString) → Response
spec_respond m r f =
    if is_get m && str_eq r.key kvstore_key
    then record { status = status_ok; body = kvstore_text }
    else spec_response m r f

unfoldable pub spec_session :
    List (Method × Request)
    → (GoString → Option GoString)
    → (GoString → Option GoString) × List Response
spec_session [] f = (f, [])
spec_session ((m, r) ∷ rs) f =
    let (f', resps) = spec_session rs (spec_map m r f) in (f', spec_respond m r f ∷ resps)

-- A request whose form parses and whose value the store can hold.
pub record IsPlain (r : Request) : Type 0 where
  pub parses : r.form_error ≡ none
  pub proper : IsProper r.value

abbrev pub AllPlain : List (Method × Request) → Type 0
AllPlain [] = Unit
AllPlain ((m, r) ∷ rs) = IsPlain r × AllPlain rs

-- What a restart keeps of a value: the empty one counts as deleted.
abbrev pub live : Option GoString → Option GoString
live none = none
live (some []) = none
live (some (b ∷ v)) = some (b ∷ v)

-- The table is valid, holds no value "Invalid", and `db_temp` has the same values but for the empty
-- ones.
pub record IsConsistent (kv : Store) : Type 0 where
  pub valid : IsValid kv
  pub proper : (k : GoString) → view kv k ≢ some invalid
  pub mirrored : (k : GoString) → live (lookup k kv.db_temp) ≡ live (view kv k)
