-- ===== src/Redis.antt =====
-- The Redis client: middleware/src/redis/redis.go. The package redigo, with its pool of connections,
-- is a parameter.
pub mod Exhausted
pub mod Kept
pub mod Mock
pub mod MockLaws
use bitbox_base.Base.{ℕ, length, Bool, true, false, Option, none, some, List, [], ◌∷◌, ◌++◌, Action}
use bitbox_base.Base.Text.{Text, text}
use bitbox_base.Base.Decimal.{decimal}
use bitbox_base.Base.Int.{ℤ, pos, negsuc, eqb_ℤ}
use bitbox_base.System.{GoError, Returns}

-- An argument of `conn.Do`.
pub data Arg : Type 0 where
  text_arg : Text → Arg
  int_arg : ℤ → Arg

-- `pool.Get`, `conn.Do`, `redis.Int`, `redis.String` and `redis.Strings`.
pub record Redigo : Type 1 where
  pub World : Type 0
  pub Conn : Type 0
  pub RedisReply : Type 0
  pub get_conn : Action World Conn
  pub send_command : Conn → List Arg → Action World (Returns RedisReply)
  pub to_int : Returns RedisReply → Returns ℤ
  pub to_text : Returns RedisReply → Returns Text
  pub to_texts : Returns RedisReply → Returns (List Text)

-- `fmt.Errorf` of the texts around the key, and the error.
abbrev wrapped : Text → Text → Text → GoError → GoError
wrapped before key after err = record {
  is_not_exist = false;
  message = before ++ (key ++ (after ++ err.message));
}

module _ (redigo : Redigo) where
  -- `conn := c.getConnection(); conn.Do(...)`: the connection is not closed.
  unfoldable pub ask : List Arg → Action redigo.World (Returns redigo.RedisReply)
  ask args w = let (conn, w') = redigo.get_conn w in redigo.send_command conn args w'

  abbrev pub int_or : Text → Returns ℤ → Returns ℤ
  int_or key (value, some err) =
      (negsuc 0, some (wrapped (text "could not get key ") key (text " as integer: ") err))
  int_or key (value, none) = (value, none)

  unfoldable pub get_int : Text → Action redigo.World (Returns ℤ)
  unfolding ask text
  get_int key w =
      let (reply, w') = ask (text_arg (text "GET") ∷ text_arg key ∷ []) w in
      (int_or key (redigo.to_int reply), w')

  abbrev pub bool_or : Text → Returns ℤ → Returns Bool
  bool_or key (value, some err) =
      (false, some (wrapped (text "could not get key ") key (text " as boolean: ") err))
  bool_or key (value, none) = (eqb_ℤ value (pos 1), none)

  unfoldable pub get_bool : Text → Action redigo.World (Returns Bool)
  unfolding ask text
  get_bool key w =
      let (reply, w') = ask (text_arg (text "GET") ∷ text_arg key ∷ []) w in
      (bool_or key (redigo.to_int reply), w')

  abbrev pub text_or : Text → Returns Text → Returns Text
  text_or key (value, some err) =
      ([], some (wrapped (text "could not get key ") key (text " as string: ") err))
  text_or key (value, none) = (value, none)

  unfoldable pub get_string : Text → Action redigo.World (Returns Text)
  unfolding ask text
  get_string key w =
      let (reply, w') = ask (text_arg (text "GET") ∷ text_arg key ∷ []) w in
      (text_or key (redigo.to_text reply), w')

  abbrev pub error_or : Text → Text → Text → Returns redigo.RedisReply → Option GoError
  error_or before key after (reply, some err) = some (wrapped before key after err)
  error_or before key after (reply, none) = none

  unfoldable pub set_string : Text → Text → Action redigo.World (Option GoError)
  unfolding ask text
  set_string key value w =
      let (reply, w') = ask (text_arg (text "SET") ∷ text_arg key ∷ text_arg value ∷ []) w in
      (error_or (text "could not set key ") key (text ": ") reply, w')

  unfoldable pub add_to_sorted_set : Text → ℤ → Text → Action redigo.World (Option GoError)
  unfolding ask text
  add_to_sorted_set key score element w =
      let (reply, w') =
        ask (text_arg (text "ZADD") ∷ text_arg key ∷ int_arg score ∷ text_arg element ∷ []) w in
      (error_or (text "could not ZADD key ") key (text ": ") reply, w')

  unfoldable pub remove_from_sorted_set : Text → Text → Action redigo.World (Option GoError)
  unfolding ask text
  remove_from_sorted_set key element w =
      let (reply, w') = ask (text_arg (text "ZREM") ∷ text_arg key ∷ text_arg element ∷ []) w in
      (
        error_or (text "could not ZREM key ") key (text " element " ++ (element ++ text ": "))
            reply,
        w',
      )

  abbrev pub only_element : Text → Returns (List Text) → Returns Text
  only_element key (elements, some err) =
      ([], some (wrapped (text "could not ZREVRANGE key ") key (text ": ") err))
  only_element key (e ∷ [], none) = (e, none)
  only_element key (elements, none) = (
    [],
    some (record {
      is_not_exist = false;
      message = text "expected exactly one element, but got " ++ decimal (length elements);
    }),
  )

  unfoldable pub get_top_from_sorted_set : Text → Action redigo.World (Returns Text)
  unfolding ask text decimal
  get_top_from_sorted_set key w =
      let (reply, w') =
        ask (text_arg (text "ZREVRANGE") ∷ text_arg key ∷ int_arg (pos 0) ∷ int_arg (pos 0) ∷ [])
          w in
      (only_element key (redigo.to_texts reply), w')
