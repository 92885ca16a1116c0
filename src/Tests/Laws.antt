-- ===== src/Tests/Laws.antt =====
-- The device of Tests/Demo keeps the laws of Redis, JSON and bcrypt that the runs of Tests/Accounts
-- need.
use bitbox_base.Base.{
  Option, some, map, ◌%◌, [], subst, arith, ◌≡◌, refl, sym, ap, ◌∙◌, ◌≢◌, false, inl, inr, none,
  ◌∷◌, Bool-cases,
}
use bitbox_base.Base.Text.{Text, text_eq, text_eq_iff, text_eq_self}
use bitbox_base.Base.Dict.{lookup, lookup-insert, lookup-insert_self}
use bitbox_base.System.{Returns}
use bitbox_base.Redis.Kept.{LawfulStore}
use bitbox_base.Middleware.Auth.Relogin.{LawfulRedis, LawfulSecrets, IsAscii}
use bitbox_base.Tests.Demo.{
  demo, demo_get, demo_get_bool, demo_set, demo_compare, demo_unmarshal, demo_hash, value_of,
  DemoWorld, demo_unmarshal-demo_marshal,
}

pub ne-text_eq : (j k : Text) → j ≢ k → text_eq k j ≡ false
ne-text_eq j k h = elim (Bool-cases (text_eq k j)) [
  | inl same ↦ absurd (h (sym ((text_eq_iff k j).0 same)))
  | inr other ↦ other
]

pub value_of-some : (o : Option Text) (v : Text) → o ≡ some v → value_of o ≡ v
value_of-some none v e = cc
value_of-some (some t) v e = cc

demo-LawfulStore : LawfulStore DemoWorld demo.redis
unfolding demo_get demo_get_bool demo_set
demo-LawfulStore = record {
  Holds = λ k v w. lookup k w.redis ≡ some v;
  set_holds = λ k v w h. lookup-insert_self k v w.redis;
  get_held = λ k v w held h. value_of-some (lookup k w.redis) v held;
  set_other = λ k v j u w h held. rw (lookup-insert j k u w.redis, ne-text_eq k j h) held;
  get_bool_keeps = λ k v j w held. held;
}

pub demo-LawfulRedis : LawfulRedis demo
unfolding demo-LawfulStore
demo-LawfulRedis = record { store = demo-LawfulStore; new_jwt_auth_keeps = λ k v w held. held }

demo_hash-IsAscii : (password : Text) → IsAscii (map (λ c. c % 128) password)
demo_hash-IsAscii [] = tt
demo_hash-IsAscii (c ∷ password) = (omega arith, demo_hash-IsAscii password)

pub demo-LawfulSecrets : LawfulSecrets demo
unfolding demo_compare demo_hash
demo-LawfulSecrets = record {
  unmarshal_marshal = λ m t name user e found n h r.
      let same : demo_unmarshal t ≡ m =
        ap (λ x. demo_unmarshal x) (sym (ap (λ (r : Returns Text). r.0) e))
        ∙ demo_unmarshal-demo_marshal m in
      (refl, ap (λ x. lookup name x) same ∙ found);
  compare_generate = λ password hash w e.
      let same : demo_hash password ≡ hash = ap (λ (r : Returns Text). r.0) e in
      (
        rw (← same, text_eq_self (demo_hash password)) refl,
        subst IsAscii same (omega arith, demo_hash-IsAscii password),
      );
}
