-- ===== src/Redis/Exhausted.antt =====
-- The connections that the client of middleware/src/redis/redis.go takes from its pool.
use bitbox_base.Base.{
  ℕ, ◌+◌, ◌≤◌, ◌<◌, Bool, true, false, some, List, [], ◌∷◌, ◌++◌, ◌≡◌, refl, ap, ◌∙◌, ◌⊎◌, inl, inr,
  arith, is_some, if◌then◌else◌,
}
use bitbox_base.Base.Text.{Text, text}
use bitbox_base.Base.Int.{ℤ}
use bitbox_base.System.{GoError, Returns}
use bitbox_base.Redis.{
  Redigo, Arg, int_or, bool_or, text_or, error_or, only_element, ask, get_int, get_bool, get_string,
  set_string, add_to_sorted_set, remove_from_sorted_set, get_top_from_sorted_set,
}

-- `MaxActive` of the pool.
abbrev pub max_active : ℕ
max_active = 12000

-- A call of the client.
pub data ClientCall : Type 0 where
  int_of bool_of string_of top_of : Text → ClientCall
  store : Text → Text → ClientCall
  add : Text → ℤ → Text → ClientCall
  remove : Text → Text → ClientCall

-- What the documentation of redigo says of a pool with `MaxActive` and without `Wait`. `in_use`
-- counts the connections that were handed out and not closed.
pub record LawfulPool (redigo : Redigo) : Type 0 where
  pub in_use : redigo.World → ℕ
  -- A connection is handed out; or there are too many, or it cannot be made, and what is handed out
  -- fails.
  pub handed_out :
      (w : redigo.World)
      → ((in_use w < max_active) × (in_use (redigo.get_conn w).1 ≡ in_use w + 1))
        ⊎ ((in_use (redigo.get_conn w).1 ≡ in_use w)
            × ((args : List Arg) (v : redigo.World)
                → (err : GoError) × ((redigo.send_command (redigo.get_conn w).0 args v).0.1
                    ≡ some err)))
  pub performed :
      (conn : redigo.Conn) (args : List Arg) (w : redigo.World)
      → in_use (redigo.send_command conn args w).1 ≡ in_use w
  -- The conversions pass an error on.
  pub to_int_error :
      (r : redigo.RedisReply) (err : GoError)
      → (e : GoError) × ((redigo.to_int (r, some err)).1 ≡ some e)
  pub to_text_error :
      (r : redigo.RedisReply) (err : GoError)
      → (e : GoError) × ((redigo.to_text (r, some err)).1 ≡ some e)
  pub to_texts_error :
      (r : redigo.RedisReply) (err : GoError)
      → (e : GoError) × ((redigo.to_texts (r, some err)).1 ≡ some e)

module _ (redigo : Redigo) where
  -- Whether the call fails.
  abbrev pub serve_call : ClientCall → redigo.World → Bool × redigo.World
  serve_call (int_of key) w = let (r, v) = get_int redigo key w in (is_some (r.1), v)
  serve_call (bool_of key) w = let (r, v) = get_bool redigo key w in (is_some (r.1), v)
  serve_call (string_of key) w = let (r, v) = get_string redigo key w in (is_some (r.1), v)
  serve_call (top_of key) w =
      let (r, v) = get_top_from_sorted_set redigo key w in (is_some (r.1), v)
  serve_call (store key value) w = let (r, v) = set_string redigo key value w in (is_some r, v)
  serve_call (add key score element) w =
      let (r, v) = add_to_sorted_set redigo key score element w in (is_some r, v)
  serve_call (remove key element) w =
      let (r, v) = remove_from_sorted_set redigo key element w in (is_some r, v)

  -- How many of the calls succeed.
  abbrev pub successes : List ClientCall → redigo.World → ℕ
  successes [] w = 0
  successes (q ∷ qs) w =
      let (failed, v) = serve_call q w in
      let rest = successes qs v in if failed then rest else rest + 1

  ask-cases :
      (pool : LawfulPool redigo) (args : List Arg) (w : redigo.World)
      → let (r, v) = ask redigo args w in
        ((pool.in_use w < max_active) × (pool.in_use v ≡ pool.in_use w + 1))
        ⊎ ((pool.in_use v ≡ pool.in_use w) × ((err : GoError) × (r.1 ≡ some err)))
  unfolding ask
  ask-cases pool args w = elim (pool.handed_out w) [
    | inl p ↦ inl (p.0, pool.performed (redigo.get_conn w).0 args (redigo.get_conn w).1 ∙ p.1)
    | inr p ↦ inr (
      pool.performed (redigo.get_conn w).0 args (redigo.get_conn w).1 ∙ p.0,
      p.1 args (redigo.get_conn w).1,
    )
  ]

  -- A call takes a connection for good, or it takes none and fails.
  abbrev Taken : LawfulPool redigo → ClientCall → redigo.World → Type 0
  Taken pool q w =
      let (failed, v) = serve_call q w in
      ((pool.in_use w < max_active) × (pool.in_use v ≡ pool.in_use w + 1))
      ⊎ ((pool.in_use v ≡ pool.in_use w) × (failed ≡ true))

  ask-failing :
      (pool : LawfulPool redigo) (args : List Arg) (w : redigo.World)
      (failed : Returns redigo.RedisReply → Bool)
      → ((reply : redigo.RedisReply) (err : GoError) → failed (reply, some err) ≡ true)
      → let (r, v) = ask redigo args w in
        ((pool.in_use w < max_active) × (pool.in_use v ≡ pool.in_use w + 1))
        ⊎ ((pool.in_use v ≡ pool.in_use w) × (failed r ≡ true))
  ask-failing pool args w failed h = elim (ask-cases pool args w) [
    | inl p ↦ inl p
    | inr p ↦
        let (same, (err, e)) = p in
        inr (same, ap (λ o. failed ((ask redigo args w).0.0, o)) e ∙ h (ask redigo args w).0.0 err)
  ]

  serve_call-Taken : (pool : LawfulPool redigo) (q : ClientCall) (w : redigo.World) → Taken pool q w
  unfolding get_int get_bool get_string set_string add_to_sorted_set remove_from_sorted_set
      get_top_from_sorted_set
  serve_call-Taken pool (int_of key) w =
      ask-failing pool _ w (λ r. is_some (int_or redigo key (redigo.to_int r)).1)
        λ reply err. rw (pool.to_int_error reply err).1 refl
  serve_call-Taken pool (bool_of key) w =
      ask-failing pool _ w (λ r. is_some (bool_or redigo key (redigo.to_int r)).1)
        λ reply err. rw (pool.to_int_error reply err).1 refl
  serve_call-Taken pool (string_of key) w =
      ask-failing pool _ w (λ r. is_some (text_or redigo key (redigo.to_text r)).1)
        λ reply err. rw (pool.to_text_error reply err).1 refl
  serve_call-Taken pool (top_of key) w =
      ask-failing pool _ w (λ r. is_some (only_element redigo key (redigo.to_texts r)).1)
        λ reply err. rw (pool.to_texts_error reply err).1 refl
  serve_call-Taken pool (store key value) w =
      ask-failing pool _ w
        (λ r. is_some (error_or redigo (text "could not set key ") key (text ": ") r))
        λ reply err. refl
  serve_call-Taken pool (add key score element) w =
      ask-failing pool _ w
        (λ r. is_some (error_or redigo (text "could not ZADD key ") key (text ": ") r))
        λ reply err. refl
  serve_call-Taken pool (remove key element) w =
      ask-failing pool _ w
        (λ r. is_some (
          error_or redigo (text "could not ZREM key ") key
            (text " element " ++ (element ++ text ": ")) r))
        λ reply err. refl

  -- Of all calls that the client ever makes, no more succeed than the pool has connections that are
  -- not handed out at the beginning: every successful call keeps its connection.
  pub successes-bound :
      (pool : LawfulPool redigo) (qs : List ClientCall) (w : redigo.World)
      → pool.in_use w ≤ max_active
      → successes qs w + pool.in_use w ≤ max_active
  successes-bound pool [] w h = omega (arith, h)
  successes-bound pool (q ∷ qs) w h = elim (serve_call-Taken pool q w) [
    | inl p ↦
        let ih = successes-bound pool qs (serve_call q w).1 (omega (arith, p.0, p.1)) in
        counted (serve_call q w).0 _ (ground (arith, p.1, ih))
    | inr p ↦
        let ih = successes-bound pool qs (serve_call q w).1 (omega (arith, h, p.0)) in
        rw (p.1) (omega (arith, ih, p.0))
  ]
    where
      counted :
          (failed : Bool) (n : ℕ)
          → (n + 1) + pool.in_use w ≤ max_active
          → (if failed then n else n + 1) + pool.in_use w ≤ max_active
      counted true n k = omega (arith, k)
      counted false n k = k
