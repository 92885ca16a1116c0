-- ===== src/Tests/Redis.antt =====
-- A pool of connections to Redis that counts those that were handed out.
use bitbox_base.Base.{
  ℕ, ◌+◌, ◌≤◌, Bool, true, false, Option, none, some, List, [], ◌≢◌, ◌∷◌, ◌≡◌, refl, inl, inr,
  arith, ltb, Bool-cases, if◌then◌else◌,
}
use bitbox_base.Base.Text.{Text, text}
use bitbox_base.Base.Int.{pos}
use bitbox_base.Base.Dict.{lookup, insert, lookup-insert, lookup-insert_self}
use bitbox_base.System.{Returns}
use bitbox_base.Redis.Kept.{LawfulStore, get_args, set_args, redis_client, redis_client-LawfulStore}
use bitbox_base.Tests.Laws.{ne-text_eq, value_of-some}
use bitbox_base.Redis.{Redigo, Arg, text_arg, ask, get_bool, get_string}
use bitbox_base.Redis.Exhausted.{
  LawfulPool, max_active, string_of, bool_of, store, successes, successes-bound,
}
use bitbox_base.Tests.Demo.{exit_error, value_of}

-- A connection is whether it works.
abbrev counting : Redigo
counting = record {
  World = ℕ;
  Conn = Bool;
  RedisReply = Unit {0};
  get_conn = λ w. if ltb w max_active then (true, w + 1) else (false, w);
  send_command = λ conn args w. ((tt, if conn then none else some exit_error), w);
  to_int = λ r. (pos 1, r.1);
  to_text = λ r. (text "1", r.1);
  to_texts = λ r. (text "1" ∷ [], r.1);
}

abbrev counting_pool : LawfulPool counting
counting_pool = record {
  in_use = λ w. w;
  handed_out = λ w. elim (Bool-cases (ltb w max_active)) [
    | inl e ↦ inl (ground arith, rw e refl)
    | inr e ↦ inr (rw e refl, λ args v. (exit_error, rw e refl))
  ];
  performed = λ conn args w. refl;
  to_int_error = λ r err. (err, refl);
  to_text_error = λ r err. (err, refl);
  to_texts_error = λ r err. (err, refl);
}

last_success : successes counting (string_of (text "a") ∷ bool_of (text "a") ∷ []) 11999 ≡ 1
unfolding ask get_string get_bool text
last_success = refl

successes-bound_example :
    successes counting (string_of (text "a") ∷ store (text "a") (text "b") ∷ []) 11999 + 11999
    ≤ max_active
successes-bound_example =
    successes-bound counting counting_pool (string_of (text "a") ∷ store (text "a") (text "b") ∷ [])
      11999 (omega arith)

-- A pool that runs out of connections, with the values that Redis stores. The commands are told apart
-- by how many arguments they have.
abbrev Stored : Type 0
Stored = ℕ × List (Text × Text)

run_stored : List Arg → Stored → Returns (Option Text) × Stored
run_stored (text_arg command ∷ text_arg k ∷ []) w = ((lookup k w.1, none), w)
run_stored (text_arg command ∷ text_arg k ∷ text_arg v ∷ []) w =
    ((none, none), (w.0, insert k v w.1))
run_stored args w = ((none, some exit_error), w)

abbrev storing : Redigo
storing = record {
  World = Stored;
  Conn = Bool;
  RedisReply = Option Text;
  get_conn = λ w. if ltb w.0 max_active then (true, (w.0 + 1, w.1)) else (false, w);
  send_command = λ conn args w. if conn then run_stored args w else ((none, some exit_error), w);
  to_int = λ r. (pos 1, r.1);
  to_text = λ r. (value_of r.0, r.1);
  to_texts = λ r. ([], r.1);
}

abbrev IsStored : Text → Text → Stored → Type 0
IsStored k v w = lookup k w.1 ≡ some v

set-IsStored :
    (conn : Bool) (k v : Text) (w : Stored)
    → (storing.send_command conn (set_args k v) w).0.1 ≡ none
    → IsStored k v (storing.send_command conn (set_args k v) w).1
unfolding run_stored
set-IsStored true k v w h = lookup-insert_self k v w.1
set-IsStored false k v w h = cc

get-IsStored :
    (conn : Bool) (k v : Text) (w : Stored)
    → IsStored k v w
    → let read = storing.to_text (storing.send_command conn (get_args k) w).0 in
      read.1 ≡ none → read.0 ≡ v
unfolding run_stored
get-IsStored true k v w held h = value_of-some (lookup k w.1) v held
get-IsStored false k v w held h = cc

set-IsStored_other :
    (conn : Bool) (k v j u : Text) (w : Stored)
    → k ≢ j
    → IsStored k v w
    → IsStored k v (storing.send_command conn (set_args j u) w).1
unfolding run_stored
set-IsStored_other true k v j u w ne held = rw (lookup-insert j k u w.1, ne-text_eq k j ne) held
set-IsStored_other false k v j u w ne held = held

get-IsStored_kept :
    (conn : Bool) (k v j : Text) (w : Stored)
    → IsStored k v w
    → IsStored k v (storing.send_command conn (get_args j) w).1
unfolding run_stored
get-IsStored_kept true k v j w held = held
get-IsStored_kept false k v j w held = held

get_conn-IsStored : (k v : Text) (w : Stored) → IsStored k v w → IsStored k v (storing.get_conn w).1
get_conn-IsStored k v w held = ground (arith, held)

-- The client keeps what it writes over this pool, also when its calls begin to fail.
storing-LawfulStore : LawfulStore Stored (redis_client storing)
storing-LawfulStore = redis_client-LawfulStore storing (record {
  Holds = IsStored;
  set_holds = set-IsStored;
  get_held = get-IsStored;
  set_other = set-IsStored_other;
  get_keeps = get-IsStored_kept;
  conn_keeps = get_conn-IsStored;
})
