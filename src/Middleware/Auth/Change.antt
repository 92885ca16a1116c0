-- ===== src/Middleware/Auth/Change.antt =====
-- What a change of password needs and does: `UserChangePassword` of middleware/src/middleware.go.
use mathlib.Core.List.{append-nil, append_assoc}
use bitbox_base.Base.{
  Bool, ◌≡◌, refl, ◌∙◌, ◌≤◌, inl, inr, true, false, Option, none, some, List, [], ◌∷◌, ◌++◌, arith,
  Option-cases, Bool-cases, if◌then◌else◌, length,
}
use bitbox_base.Base.Text.{Text, text}
use bitbox_base.Base.Dict.{lookup, insert}
use bitbox_base.Rpcmessages.{succeeded, UserChangePasswordArgs}
use bitbox_base.System.{System, GoError, UserAuthStruct, UsersMap}
use bitbox_base.System.Keys.{key_text, middleware_auth, middleware_password_set}
use bitbox_base.Middleware.State.{State, Call, set_redis}
use bitbox_base.Middleware.Auth.{
  get_auth_structure, finish_store, mark_password_set, change_user, change_users, replace_hash,
  store_users, user_change_password,
}

-- The entry that a change writes.
abbrev pub new_entry : Text → UserAuthStruct
new_entry hash = record { bcrypted_password = hash; role = text "admin" }

module _ (sys : System) where
  -- The Redis writes of a change: the new map, and the setup flag if it was not set.
  abbrev pub change_writes : State sys → Text → List Call
  change_writes s auth =
      set_redis (key_text middleware_auth) auth
      ∷ (if s.is_middleware_password_set
          then []
          else set_redis (key_text middleware_password_set) (text "1") ∷ [])

  -- The world after `mark_password_set`, and after both writes of a change.
  abbrev pub flag_world : Bool → sys.World → sys.World
  flag_world true w = w
  flag_world false w = (sys.redis.set_string (key_text middleware_password_set) (text "1") w).1

  abbrev pub stored_world : Bool → Text → sys.World → sys.World
  stored_world set auth w =
      flag_world set (sys.redis.set_string (key_text middleware_auth) auth w).1

  -- What a successful change has found and done, from the state `u` in which the map was read.
  pub record Changed (args : UserChangePasswordArgs) (users : UsersMap) (u t : State sys)
      : Type 0 where
    pub user : UserAuthStruct
    pub found : lookup args.username users ≡ some user
    pub fits : sys.compare_hash user.bcrypted_password args.password ≡ none
    pub hash : Text
    pub hashed : (sys.generate_hash args.new_password u.world).0 ≡ (hash, none)
    pub auth : Text
    pub marshalled : sys.marshal_users (insert args.username (new_entry hash) users) ≡ (auth, none)
    pub written : t.calls ≡ u.calls ++ change_writes u auth
    pub marked : t.is_middleware_password_set ≡ true
    pub stored :
        (sys.redis.set_string
          (key_text middleware_auth)
          auth
          (sys.generate_hash args.new_password u.world).1).0
        ≡ none
    pub world :
        t.world
        ≡ stored_world u.is_middleware_password_set auth
            (sys.generate_hash args.new_password u.world).1

  user_change_password_read :
      (args : UserChangePasswordArgs) (s : State sys)
      → 8 ≤ length args.new_password
      → let (users, u) = get_auth_structure sys s in
        user_change_password sys args s ≡ change_users sys args users u
  unfolding user_change_password
  user_change_password_read args s h = ground arith

  abbrev flag_writes : State sys → List Call
  flag_writes s =
      if s.is_middleware_password_set
      then []
      else set_redis (key_text middleware_password_set) (text "1") ∷ []

  mark_password_set-written :
      (s : State sys)
      → let (r, t) = mark_password_set sys s in
        (r ≡ succeeded)
        × (t.calls ≡ s.calls ++ flag_writes s)
        × (t.is_middleware_password_set ≡ true)
        × (t.world ≡ flag_world s.is_middleware_password_set s.world)
  unfolding mark_password_set
  mark_password_set-written s = elim (Bool-cases s.is_middleware_password_set) [
    | inl set ↦ ground (arith, append-nil s.calls)
    | inr unset ↦ ground arith
  ]

  abbrev WritesMap : Text × Option GoError → State sys → State sys → Type 0
  WritesMap m v t =
      (auth : Text) × (m ≡ (auth, none))
      × (t.calls ≡ v.calls ++ change_writes v auth)
      × (t.is_middleware_password_set ≡ true)
      × ((sys.redis.set_string (key_text middleware_auth) auth v.world).0 ≡ none)
      × (t.world ≡ stored_world v.is_middleware_password_set auth v.world)

  finish_store-written :
      (o : Option GoError) (s : State sys)
      → let (r, t) = finish_store sys o s in
        r.success ≡ true
        → (o ≡ none)
          × (t.calls ≡ s.calls ++ flag_writes s)
          × (t.is_middleware_password_set ≡ true)
          × (t.world ≡ flag_world s.is_middleware_password_set s.world)
  finish_store-written (some err) s ok = cc
  finish_store-written none s ok =
      let (same, written, marked, world) = mark_password_set-written s in
      (refl, written, marked, world)

  store_users-written :
      (m : Text × Option GoError) (v : State sys)
      → (store_users sys m v).0.success ≡ true
      → WritesMap m v (store_users sys m v).1
  store_users-written (auth, some err) v ok = cc
  store_users-written (auth, none) v ok =
      let (stored, w) = sys.redis.set_string (key_text middleware_auth) auth v.world in
      let v' : State sys = record v {
        world = w;
        calls = v.calls ++ (set_redis (key_text middleware_auth) auth ∷ []);
      } in
      let (done, written, marked, world) = finish_store-written stored v' ok in
      (auth, refl, written ∙ append_assoc v.calls _ (flag_writes v), marked, done, world)

  replace_hash-Changed :
      (args : UserChangePasswordArgs) (users : UsersMap) (u : State sys) (user : UserAuthStruct)
      (made : Text × Option GoError)
      → lookup args.username users ≡ some user
      → sys.compare_hash user.bcrypted_password args.password ≡ none
      → (sys.generate_hash args.new_password u.world).0 ≡ made
      → let v : State sys = record u { world = (sys.generate_hash args.new_password u.world).1 } in
        (replace_hash sys args.username users made v).0.success ≡ true
        → Changed args users u (replace_hash sys args.username users made v).1
  replace_hash-Changed args users u user (_, some err) found fits hashed ok = cc
  replace_hash-Changed args users u user (hash, none) found fits hashed ok =
      let v : State sys = record u { world = (sys.generate_hash args.new_password u.world).1 } in
      let (auth, marshalled, written, marked, stored, world) =
        store_users-written (sys.marshal_users (insert args.username (new_entry hash) users)) v
          ok in
      record {
        user = user;
        found = found;
        fits = fits;
        hash = hash;
        hashed = hashed;
        auth = auth;
        marshalled = marshalled;
        written = written;
        marked = marked;
        stored = stored;
        world = world;
      }

  change_user-Changed :
      (args : UserChangePasswordArgs) (users : UsersMap) (u : State sys) (o : Option UserAuthStruct)
      → lookup args.username users ≡ o
      → (change_user sys args users o u).0.success ≡ true
      → Changed args users u (change_user sys args users o u).1
  change_user-Changed args users u none found ok = cc
  change_user-Changed args users u (some user) found ok =
      elim (Option-cases (sys.compare_hash user.bcrypted_password args.password)) [
        | inr (err, wrong) ↦ ground arith
        | inl right ↦
            rw (right, change_user)
              (replace_hash-Changed args users u user _ found right refl
                (rw (right, change_user) at ok))
      ]

  change_users-Changed :
      (args : UserChangePasswordArgs) (users : UsersMap × Option GoError) (u : State sys)
      → (change_users sys args users u).0.success ≡ true
      → (users.1 ≡ none) × Changed args users.0 u (change_users sys args users u).1
  change_users-Changed args (users, some err) u ok = cc
  change_users-Changed args (users, none) u ok = (refl, change_user-Changed args users u _ refl ok)

  user_change_password_long :
      (args : UserChangePasswordArgs) (s : State sys)
      → (user_change_password sys args s).0.success ≡ true
      → 8 ≤ length args.new_password
  unfolding user_change_password
  user_change_password_long args s ok = ground arith

  -- A change that reports success had a new password of at least 8 bytes and the current password
  -- of a known user; it has hashed the new password and written exactly the map with that user's
  -- new entry, and the flag that the password is set if it was not; the flag is set afterwards.
  pub user_change_password_sound :
      (args : UserChangePasswordArgs) (s : State sys)
      → (user_change_password sys args s).0.success ≡ true
      → let (users, u) = get_auth_structure sys s in
        (8 ≤ length args.new_password)
        × (users.1 ≡ none)
        × Changed args users.0 u (user_change_password sys args s).1
  user_change_password_sound args s ok =
      let long = user_change_password_long args s ok in
      let read = user_change_password_read args s long in
      let (users, u) = get_auth_structure sys s in
      let (found, changed) = change_users-Changed args users u (rw read at ok) in
      (long, found, rw read changed)
