-- ===== src/Redis/Mock.antt =====
-- The mock of the Redis client: middleware/src/redis/redis_mock.go.
use bitbox_base.Base.{Bool, Option, none, some, List, [], ◌∷◌, Action}
use bitbox_base.Base.Text.{Text, text}
use bitbox_base.Base.Int.{ℤ, pos, eqb_ℤ}
use bitbox_base.Base.Dict.{lookup, insert}
use bitbox_base.Base.Decimal.{atoi}
use bitbox_base.System.{GoError, Returns, RedisClient}
use bitbox_base.System.Keys.{
  key_text, base_version, base_hostname, tor_enabled, bitcoind_listen, middleware_password_set,
  base_setup_done, middleware_auth,
}

pub record MockClient : Type 0 where
  pub mock_redis_map : List (Text × Text)

abbrev pub value_or_empty : Option Text → Text
value_or_empty none = []
value_or_empty (some value) = value

-- `mc.mockRedisMap[string(key)]`
abbrev pub stored : Text → MockClient → Text
stored key mc = value_or_empty (lookup key mc.mock_redis_map)

unfoldable pub set_string : Text → Text → Action MockClient (Option GoError)
set_string key value mc = (none, record { mock_redis_map = insert key value mc.mock_redis_map })

unfoldable pub get_string : Text → Action MockClient (Returns Text)
get_string key mc = ((stored key mc, none), mc)

-- `strconv.Atoi`, for what it gives on a text that is no `int`.
module _ (atoi_failed : Text → Returns ℤ) where
  abbrev pub int_or_failed : Text → Option ℤ → Returns ℤ
  int_or_failed s none = atoi_failed s
  int_or_failed s (some val) = (val, none)

  unfoldable pub get_int : Text → Action MockClient (Returns ℤ)
  get_int key mc = (int_or_failed (stored key mc) (atoi (stored key mc)), mc)

  unfoldable pub get_bool : Text → Action MockClient (Returns Bool)
  get_bool key mc =
      let (val_as_int, err) = int_or_failed (stored key mc) (atoi (stored key mc)) in
      ((eqb_ℤ val_as_int (pos 1), err), mc)

  -- The dummies, which print their arguments.
  unfoldable pub add_to_sorted_set : Text → ℤ → Text → Action MockClient (Option GoError)
  add_to_sorted_set key score element mc = (none, mc)

  unfoldable pub remove_from_sorted_set : Text → Text → Action MockClient (Option GoError)
  remove_from_sorted_set key element mc = (none, mc)

  unfoldable pub get_top_from_sorted_set : Text → Action MockClient (Returns Text)
  get_top_from_sorted_set key mc = ((text "dummy mock", none), mc)

  -- The mock as the middleware calls it.
  abbrev pub mock_redis : RedisClient MockClient
  mock_redis = record { get_bool = get_bool; get_string = get_string; set_string = set_string }

abbrev pub put_all : List (Text × Text) → List (Text × Text) → List (Text × Text)
put_all [] m = m
put_all ((key, value) ∷ entries) m = put_all entries (insert key value m)

abbrev test_entries : List (Text × Text)
test_entries =
    (key_text base_version, text "0.0.1")
    ∷ (key_text base_hostname, text "bitbox-base-redis-mock")
    ∷ (key_text tor_enabled, text "1")
    ∷ (key_text bitcoind_listen, text "1")
    ∷ (key_text middleware_password_set, text "0")
    ∷ (key_text base_setup_done, text "0")
    ∷ (
      key_text middleware_auth,
      text "{\"admin\":{\"password\":\"ICanHasPasword?\",\"role\":\"admin\"}}",
    )
    ∷ (text "test:getBooleanFromRedis:true", text "1")
    ∷ (text "test:getBooleanFromRedis:false1", text "0")
    ∷ (text "test:getBooleanFromRedis:false2", text "3")
    ∷ (text "test:getBooleanFromRedis:false3", text "abc")
    ∷ (text "test:getStringFromRedis:abc", text "abc")
    ∷ (text "test:getStringFromRedis:empty", [])
    ∷ []

unfoldable pub setup_test_data : List (Text × Text)
setup_test_data = put_all test_entries []

abbrev pub new_mock_client : Text → MockClient
new_mock_client port = record { mock_redis_map = setup_test_data }
