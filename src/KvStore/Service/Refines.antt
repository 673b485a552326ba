-- ===== src/KvStore/Service/Refines.antt =====
-- Requests and sessions against the specification.
use distributed_dns.Base.{
  ◌≡◌, ◌≢◌, refl, ap, Option, none, some, List, [], ◌∷◌, arith, GoString, str_eq, str_eq_iff,
  str_eq_refl, StringMap, lookup-insert, ok, Returns, not, Option-cases, Bool-cases, true, ◌&&◌,
  inl, inr,
}
use mathlib.Core.Path.{fun_ext, ap₂}
use distributed_dns.KvStore.LinkedList.{found}
use distributed_dns.KvStore.Store.{Store, invalid}
use distributed_dns.KvStore.Store
use distributed_dns.KvStore.View.{view, or_invalid, get-view}
use distributed_dns.KvStore.Operations.{Keeps, push-Keeps, put-Keeps, delete-Keeps}
use distributed_dns.KvStore.Handlers.{
  Request, Response, Server, status_ok, persist, remember, post_handler, get_handler, put_handler,
  delete_handler,
}
use distributed_dns.KvStore.Service.Defs.{
  Method, is_get, kvstore_key, kvstore_text, serve, respond, session, spec_map, spec_response,
  spec_respond, spec_session, IsPlain, AllPlain, live, IsConsistent,
}

-- `Get` tells a missing key by its result, in a table with no value "Invalid".
get_test : (o : Option GoString) → o ≢ some invalid → str_eq (or_invalid o) invalid ≡ not (found o)
get_test none h = str_eq_refl invalid
get_test (some v) h = ground (arith, str_eq_iff v invalid)

view-remember : (k w : GoString) (kv : Store) (j : GoString) → view (remember k w kv) j ≡ view kv j
unfolding view
view-remember k w kv j = refl

-- A write at a key, mirrored in `db_temp`, keeps the store consistent.
module _ {kv kv' : Store} {k : GoString} {v : Option GoString} where
  pub Keeps-mirrored :
      IsConsistent kv
      → Keeps kv k v kv'
      → v ≢ some invalid
      → (w : GoString) → live (some w) ≡ live v
      → IsConsistent (remember k w kv')
  Keeps-mirrored c (writes, valid) p w e = record {
    valid = record { sized = valid.sized; unique = valid.unique };
    proper = λ j. ground (arith, writes.view j, c.proper j, view-remember k w kv' j);
    mirrored = λ j. ground (
      arith,
      writes.view j,
      c.mirrored j,
      lookup-insert j k w kv'.db_temp,
      writes.same_temp,
      view-remember k w kv' j,
    );
  }

-- A write that leaves the map as it is.
Keeps-idle :
    {kv kv' : Store} (k : GoString) {v : Option GoString}
    → IsConsistent kv
    → Keeps kv k v kv'
    → view kv k ≡ v
    → IsConsistent kv'
Keeps-idle {kv} {kv'} k c (writes, valid) e = record {
  valid = valid;
  proper = λ j. ground (arith, writes.view j, c.proper j, str_eq_iff k j);
  mirrored = λ j. ground (arith, writes.view j, c.mirrored j, str_eq_iff k j, writes.same_temp);
}

module _ {D : Type 0} (encode : StringMap GoString → D) where
  -- One request does to the table what the specification does to the map.
  pub record Serves (m : Method) (r : Request) (kv : Store) (res : Server encode × Response)
      : Type 0 where
    pub consistent : IsConsistent res.0.kv
    pub reads : (j : GoString) → view res.0.kv j ≡ spec_map m r (view kv) j
    pub responds : res.1 ≡ spec_response m r (view kv)

  module _ (r : Request) (s : Server encode) (c : IsConsistent s.kv) (plain : IsPlain r) where
    -- The test of `PostHandler` and of `GetHandler`: is the key missing?
    missing : str_eq (or_invalid (view s.kv r.key)) invalid ≡ not (found (view s.kv r.key))
    missing = get_test (view s.kv r.key) (c.proper r.key)

    got : Store.get r.key s.kv ≡ ok (or_invalid (view s.kv r.key))
    got = get-view s.kv r.key c.valid.sized

    post_handler-Serves : Returns (post_handler encode r s) (Serves Method.post r s.kv)
    unfolding post_handler
    post_handler-Serves = elim (Option-cases (view s.kv r.key)) [
      | inl absent ↦
          let (kv', run, keeps) = push-Keeps s.kv r.key c.valid r.value absent in
          (
            (persist encode (remember r.key r.value kv'), spec_response Method.post r (view s.kv)),
            rw (plain.parses, got, missing, absent, run),
            record {
              consistent = Keeps-mirrored c keeps (λ e. plain.proper (cc)) r.value refl;
              reads =
                  λ j. ground (arith, absent, keeps.0.view j, view-remember r.key r.value kv' j);
              responds = refl;
            },
          )
      | inr (w, present) ↦ (
        (persist encode s.kv, spec_response Method.post r (view s.kv)),
        rw (plain.parses, got, missing, present),
        record {
          consistent = c;
          reads = λ j. ground (arith, present, str_eq_iff r.key j);
          responds = refl;
        },
      )
    ]

    get_handler-Serves : Returns (get_handler encode r s) (Serves Method.get r s.kv)
    unfolding get_handler
    get_handler-Serves = elim (Option-cases (view s.kv r.key)) [
      | inl absent ↦ (
        (s, spec_response Method.get r (view s.kv)),
        rw (got, missing, absent),
        record {
          consistent = c;
          reads = λ j. ground (arith, str_eq_iff r.key j, absent);
          responds = refl;
        },
      )
      | inr (w, present) ↦ (
        (s, spec_response Method.get r (view s.kv)),
        rw (got, missing, present),
        record {
          consistent = c;
          reads = λ j. ground (arith, str_eq_iff r.key j, present);
          responds = refl;
        },
      )
    ]

    put_handler-Serves : Returns (put_handler encode r s) (Serves Method.put r s.kv)
    unfolding put_handler
    put_handler-Serves =
        let ((kv', done), run, (found_iff, keeps)) = put-Keeps s.kv r.key c.valid r.value in
        elim (Option-cases (view s.kv r.key)) [
          | inl absent ↦ (
            (persist encode kv', spec_response Method.put r (view s.kv)),
            rw (plain.parses, run, found_iff, absent),
            record {
              consistent = Keeps-idle r.key c (rw absent at keeps) absent;
              reads = λ j. ground (arith, absent, keeps.0.view j);
              responds = refl;
            },
          )
          | inr (w, present) ↦ (
            (persist encode (remember r.key r.value kv'), spec_response Method.put r (view s.kv)),
            rw (plain.parses, run, found_iff, present),
            record {
              consistent =
                  Keeps-mirrored c (rw present at keeps) (λ e. plain.proper (cc)) r.value refl;
              reads =
                  λ j. ground (arith, present, keeps.0.view j, view-remember r.key r.value kv' j);
              responds = refl;
            },
          )
        ]

    delete_handler-Serves : Returns (delete_handler encode r s) (Serves Method.delete r s.kv)
    unfolding delete_handler
    delete_handler-Serves =
        let ((kv', done), run, (found_iff, keeps)) = delete-Keeps s.kv r.key c.valid in
        elim (Option-cases (view s.kv r.key)) [
          | inl absent ↦ (
            (persist encode kv', spec_response Method.delete r (view s.kv)),
            rw (run, found_iff, absent),
            record {
              consistent = Keeps-idle r.key c keeps absent;
              reads = λ j. ground (arith, absent, keeps.0.view j);
              responds = refl;
            },
          )
          | inr (w, present) ↦ (
            (persist encode (remember r.key [] kv'), spec_response Method.delete r (view s.kv)),
            rw (run, found_iff, present),
            record {
              consistent = Keeps-mirrored c keeps (λ e. cc) [] refl;
              reads = λ j. ground (arith, present, keeps.0.view j, view-remember r.key [] kv' j);
              responds = refl;
            },
          )
        ]

  -- Each request whose form parses and whose value is not the string that stands for no value, at a
  -- consistent store, returns with the response of the specification, keeps the store consistent,
  -- and changes the table as the specification changes the map.
  pub serve_refines :
      (m : Method) (r : Request) (s : Server encode)
      → IsConsistent s.kv
      → IsPlain r
      → Returns (serve encode m r s) (Serves m r s.kv)
  unfolding serve
  serve_refines Method.post r s c p = post_handler-Serves r s c p
  serve_refines Method.get r s c p = get_handler-Serves r s c p
  serve_refines Method.put r s c p = put_handler-Serves r s c p
  serve_refines Method.delete r s c p = delete_handler-Serves r s c p

  -- A GET leaves the specification's map as it is.
  spec_map-get :
      (r : Request) (f : GoString → Option GoString) (j : GoString)
      → f j ≡ spec_map Method.get r f j
  spec_map-get r f j = elim (Option-cases (f r.key)) [
    | inl absent ↦ ground (arith, str_eq_iff r.key j, absent)
    | inr (w, present) ↦ ground (arith, str_eq_iff r.key j, present)
  ]

  pub record Answers (m : Method) (r : Request) (kv : Store) (res : Server encode × Response)
      : Type 0 where
    pub consistent : IsConsistent res.0.kv
    pub reads : (j : GoString) → view res.0.kv j ≡ spec_map m r (view kv) j
    pub responds : res.1 ≡ spec_respond m r (view kv)

  respond-Answers :
      (m : Method) (r : Request) (s : Server encode)
      → IsConsistent s.kv
      → IsPlain r
      → Returns (respond encode m r s) (Answers m r s.kv)
  unfolding respond
  respond-Answers m r s c p = elim (Bool-cases (is_get m && str_eq r.key kvstore_key)) [
    | inl page ↦ (
      (s, record { status = status_ok; body = kvstore_text }),
      rw page refl,
      record {
        consistent = c;
        reads = λ j. idle m (ground (arith, page)) j;
        responds = rw page refl;
      },
    )
    | inr key ↦
        let (res, run, served) = serve_refines m r s c p in
        (
          res,
          rw key run,
          record {
            consistent = served.consistent;
            reads = served.reads;
            responds = rw key served.responds;
          },
        )
  ]
    where
      idle :
          (m : Method) → is_get m ≡ true → (j : GoString) → view s.kv j ≡ spec_map m r (view s.kv) j
      idle Method.get e j = spec_map-get r (view s.kv) j
      idle Method.post e j = ground arith
      idle Method.put e j = ground arith
      idle Method.delete e j = ground arith

  -- A session of requests, over all routes of the store, whose forms parse and whose values are not
  -- the string that stands for no value, at a consistent store, returns: the store stays
  -- consistent, the table ends as the specification's map, and the responses are those of the
  -- specification, where a GET of "kvstore" has the test page and not the value of that key.
  pub session_refines :
      (rs : List (Method × Request)) (s : Server encode)
      → IsConsistent s.kv
      → AllPlain rs
      → Returns (session encode rs s) λ res.
        IsConsistent res.0.kv
        × ((j : GoString) → view res.0.kv j ≡ (spec_session rs (view s.kv)).0 j)
        × (res.1 ≡ (spec_session rs (view s.kv)).1)
  unfolding session spec_session
  session_refines [] s c p = ((s, []), refl, (c, λ j. refl, refl))
  session_refines ((m, r) ∷ rs) s c p =
      let ((s', resp), run, served) = respond-Answers m r s c p.0 in
      let ((s'', resps), runs, (c', reads, responds)) =
        session_refines rs s' served.consistent p.1 in
      let same : spec_session rs (view s'.kv) ≡ spec_session rs (spec_map m r (view s.kv)) =
        ap (spec_session rs) (fun_ext served.reads) in
      (
        (s'', resp ∷ resps),
        rw (run, runs),
        (c', λ j. rw (← same) (reads j), ap₂ ◌∷◌ served.responds (rw (← same) responds)),
      )
