-- ===== src/Redis/Kept.antt =====
-- What the client of middleware/src/redis/redis.go promises of the values that it writes, and that it
-- keeps this over redigo, whose calls may fail.
use bitbox_base.Base.{◌≡◌, refl, ◌≢◌, none, some, List, [], ◌∷◌, arith}
use bitbox_base.Base.Text.{Text, text}
use bitbox_base.System.{Returns, RedisClient}
use bitbox_base.Redis.{
  Redigo, Arg, text_arg, ask, text_or, error_or, get_bool, get_string, set_string,
}

-- `Holds k v w`: in the world `w`, Redis stores `v` under the key `k`. A write that reports no error
-- stores its value, and a read that reports no error answers it. Another call, also one that fails,
-- leaves it as it is: nothing else writes to Redis meanwhile.
pub record LawfulStore (World : Type 0) (redis : RedisClient World) : Type 1 where
  pub Holds : Text → Text → World → Type 0
  pub set_holds :
      (k v : Text) (w : World)
      → (redis.set_string k v w).0 ≡ none
      → Holds k v (redis.set_string k v w).1
  pub get_held :
      (k v : Text) (w : World)
      → Holds k v w
      → (redis.get_string k w).0.1 ≡ none
      → (redis.get_string k w).0.0 ≡ v
  pub set_other :
      (k v j u : Text) (w : World) → k ≢ j → Holds k v w → Holds k v (redis.set_string j u w).1
  pub get_bool_keeps : (k v j : Text) (w : World) → Holds k v w → Holds k v (redis.get_bool j w).1

abbrev pub get_args : Text → List Arg
get_args k = text_arg (text "GET") ∷ text_arg k ∷ []

abbrev pub set_args : Text → Text → List Arg
set_args k v = text_arg (text "SET") ∷ text_arg k ∷ text_arg v ∷ []

-- The commands of Redis, by a connection that may fail.
pub record LawfulCommands (redigo : Redigo) : Type 1 where
  pub Holds : Text → Text → redigo.World → Type 0
  pub set_holds :
      (conn : redigo.Conn) (k v : Text) (w : redigo.World)
      → (redigo.send_command conn (set_args k v) w).0.1 ≡ none
      → Holds k v (redigo.send_command conn (set_args k v) w).1
  pub get_held :
      (conn : redigo.Conn) (k v : Text) (w : redigo.World)
      → Holds k v w
      → let read = redigo.to_text (redigo.send_command conn (get_args k) w).0 in
        read.1 ≡ none → read.0 ≡ v
  pub set_other :
      (conn : redigo.Conn) (k v j u : Text) (w : redigo.World)
      → k ≢ j
      → Holds k v w
      → Holds k v (redigo.send_command conn (set_args j u) w).1
  pub get_keeps :
      (conn : redigo.Conn) (k v j : Text) (w : redigo.World)
      → Holds k v w
      → Holds k v (redigo.send_command conn (get_args j) w).1
  pub conn_keeps : (k v : Text) (w : redigo.World) → Holds k v w → Holds k v (redigo.get_conn w).1

abbrev pub redis_client : (redigo : Redigo) → RedisClient redigo.World
redis_client redigo = record {
  get_bool = get_bool redigo;
  get_string = get_string redigo;
  set_string = set_string redigo;
}

error_or-none :
    (redigo : Redigo) (before key after : Text) (r : Returns redigo.RedisReply)
    → error_or redigo before key after r ≡ none
    → r.1 ≡ none
error_or-none redigo before key after (reply, some err) h = absurd (ground arith)
error_or-none redigo before key after (reply, none) h = refl

text_or-none :
    (redigo : Redigo) (key v : Text) (r : Returns Text)
    → (r.1 ≡ none → r.0 ≡ v)
    → (text_or redigo key r).1 ≡ none
    → (text_or redigo key r).0 ≡ v
text_or-none redigo key v (value, some err) read h = absurd (ground arith)
text_or-none redigo key v (value, none) read h = read refl

-- The client takes a connection for each call, and keeps the laws of a store if redigo does.
pub redis_client-LawfulStore :
    (redigo : Redigo) → LawfulCommands redigo → LawfulStore redigo.World (redis_client redigo)
unfolding get_bool get_string set_string ask
redis_client-LawfulStore redigo c = record {
  Holds = c.Holds;
  set_holds = λ k v w h.
      let (conn, u) = redigo.get_conn w in
      c.set_holds conn k v u (
        error_or-none redigo (text "could not set key ") k (text ": ")
          (redigo.send_command conn (set_args k v) u).0 h);
  get_held = λ k v w held h.
      let (conn, u) = redigo.get_conn w in
      text_or-none redigo k v (redigo.to_text (redigo.send_command conn (get_args k) u).0)
        (c.get_held conn k v u (c.conn_keeps k v w held)) h;
  set_other = λ k v j u w ne held. c.set_other _ k v j u _ ne (c.conn_keeps k v w held);
  get_bool_keeps = λ k v j w held. c.get_keeps _ k v j _ (c.conn_keeps k v w held);
}
