-- ===== src/Tests/MockRedis.antt =====
-- The mock of the Redis client with its test data.
use bitbox_base.Base.{◌≡◌, ◌≢◌, refl, none, some, true, false}
use bitbox_base.Base.Text.{Text, text, text_eq}
use bitbox_base.Base.Int.{ℤ, pos}
use bitbox_base.Base.Dict.{lookup, insert}
use bitbox_base.Base.Decimal.{atoi}
use bitbox_base.System.{Returns}
use bitbox_base.System.Keys.{key_text, tor_enabled}
use bitbox_base.Redis.Mock.{MockClient, new_mock_client, get_bool, setup_test_data}
use bitbox_base.Tests.Demo.{exit_error}

abbrev no_int : Text → Returns ℤ
no_int s = (pos 0, some exit_error)

abbrev mock : MockClient
mock = new_mock_client (text "6379")

tor_is_enabled : (get_bool no_int (key_text tor_enabled) mock).0 ≡ (true, none)
unfolding get_bool lookup atoi setup_test_data insert key_text text text_eq
tor_is_enabled = refl

abc_is_no_int :
    (get_bool no_int (text "test:getBooleanFromRedis:false3") mock).0 ≡ (false, some exit_error)
unfolding get_bool lookup atoi setup_test_data insert key_text text text_eq
abc_is_no_int = refl

keys_differ : text "a key" ≢ text "a"
unfolding text
keys_differ = λ e. cc
