-- ===== src/Redis/MockLaws.antt =====
-- What is written to the mock of middleware/src/redis/redis_mock.go is read back.
use bitbox_base.Base.{none, ◌≡◌, ◌≢◌, refl, sym, Bool-cases, inl, inr}
use bitbox_base.Base.Text.{Text, text_eq, text_eq_iff}
use bitbox_base.Base.Int.{ℤ, pos, eqb_ℤ}
use bitbox_base.Base.Dict.{lookup-insert, lookup-insert_self}
use bitbox_base.Base.Decimal.{itoa, atoi-itoa, Fits}
use bitbox_base.System.{Returns}
use bitbox_base.Redis.Mock.{MockClient, stored, set_string, get_string, get_int, get_bool}

stored_self : (key value : Text) (mc : MockClient) → stored key (set_string key value mc).1 ≡ value
unfolding set_string
stored_self key value mc = rw (lookup-insert_self key value mc.mock_redis_map) refl

stored_other :
    (key j value : Text) (mc : MockClient)
    → j ≢ key
    → stored j (set_string key value mc).1 ≡ stored j mc
unfolding set_string
stored_other key j value mc other =
    rw (lookup-insert key j value mc.mock_redis_map) (elim (Bool-cases (text_eq key j)) [
      | inl e ↦ absurd (other (sym ((text_eq_iff key j).0 e)))
      | inr e ↦ rw e refl
    ])

-- An integer of 64 bits that is written to a key of the mock in decimal notation is read back from it
-- as a string, as that integer, and as whether it is 1; what is read as a string from any other key
-- stays as it was.
pub get_int-set_string :
    (atoi_failed : Text → Returns ℤ) (key j : Text) (z : ℤ) (mc : MockClient)
    → Fits z
    → j ≢ key
    → let after = (set_string key (itoa z) mc).1 in
      ((get_string key after).0 ≡ (itoa z, none))
      × ((get_int atoi_failed key after).0 ≡ (z, none))
      × ((get_bool atoi_failed key after).0 ≡ (eqb_ℤ z (pos 1), none))
      × ((get_string j after).0 ≡ (get_string j mc).0)
unfolding get_string get_int get_bool
get_int-set_string atoi_failed key j z mc fits other =
    let self = stored_self key (itoa z) mc in
    (
      rw self refl,
      rw (self, atoi-itoa z fits) refl,
      rw (self, atoi-itoa z fits) refl,
      rw (stored_other key j (itoa z) mc other) refl,
    )
