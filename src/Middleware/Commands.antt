-- ===== src/Middleware/Commands.antt =====
-- Which commands the middleware of middleware/src/middleware.go runs, and which keys of Redis it
-- writes: lemmas on the operations that methods are made of.
pub mod Scripts
pub mod Settings
pub mod Status
pub mod Start
use bitbox_base.Base.{
  ℕ, Bool, true, false, Option, none, some, List, [], ◌∷◌, ◌++◌, ◌≡◌, ◌⊎◌, refl, ◌∙◌, inl, inr, sym,
  subst, All, All-append, Action, pure, gets, modify, ◌>>=◌, if◌then◌else◌,
}
use bitbox_base.Base.Text.{Text, text}
use bitbox_base.Configuration.{Configuration}
use bitbox_base.System.{System, GoError, Returns}
use bitbox_base.System.Keys.{key_text, middleware_auth, middleware_password_set, base_setup_done}
use bitbox_base.Middleware.State.{
  State, M, Call, run, set_redis, outside, note, schedule, set_string, Event, send,
}

-- The three scripts of the configuration and `systemctl`; the three keys that the middleware owns.
pub data IsAllowed (c : Configuration) : Call → Type 0 where
  cmd_script : (args : List Text) → IsAllowed c (run c.bbb_cmd_script args)
  config_script : (args : List Text) → IsAllowed c (run c.bbb_config_script args)
  systemctl_script : (args : List Text) → IsAllowed c (run c.bbb_systemctl_script args)
  systemctl : (args : List Text) → IsAllowed c (run (text "systemctl") args)
  auth_key : (value : Text) → IsAllowed c (set_redis (key_text middleware_auth) value)
  password_key : (value : Text) → IsAllowed c (set_redis (key_text middleware_password_set) value)
  setup_key : (value : Text) → IsAllowed c (set_redis (key_text base_setup_done) value)

pub data IsDelayed : Call → Type 0 where
  shutdown : IsDelayed (run (text "shutdown") (text "now" ∷ []))
  reboot : IsDelayed (run (text "reboot") [])

module _ (sys : System) (c : Configuration) where
  pub record IsSafe (s : State sys) : Type 0 where
    pub configured : s.config ≡ c
    pub calls : All (IsAllowed c) s.calls
    pub scheduled : All IsDelayed s.scheduled

  abbrev pub Keeps : {A : Type 0} → M sys A → Type 0
  Keeps m = (s : State sys) → IsSafe s → IsSafe (m s).1

  pub Keeps-pure : {A : Type 0} (a : A) → Keeps (pure a)
  Keeps-pure a s h = record { configured = h.configured; calls = h.calls; scheduled = h.scheduled }

  pub Keeps-gets : {A : Type 0} (f : State sys → A) → Keeps (gets f)
  Keeps-gets f s h = h

  pub Keeps-outside : {A : Type 0} (f : Action sys.World A) → Keeps (outside sys f)
  Keeps-outside f s h = record {
    configured = h.configured;
    calls = h.calls;
    scheduled = h.scheduled;
  }

  pub Keeps-send : (e : Event) → Keeps (send sys e)
  Keeps-send e s h = record { configured = h.configured; calls = h.calls; scheduled = h.scheduled }

  pub Keeps-note : (d : Call) → IsAllowed c d → Keeps (note sys d)
  Keeps-note d allowed s h = record {
    configured = h.configured;
    calls = All-append (IsAllowed c) s.calls (d ∷ []) h.calls (allowed, tt);
    scheduled = h.scheduled;
  }

  pub Keeps-schedule : (d : Call) → IsDelayed d → Keeps (schedule sys d)
  Keeps-schedule d delayed s h = record {
    configured = h.configured;
    calls = h.calls;
    scheduled = All-append IsDelayed s.scheduled (d ∷ []) h.scheduled (delayed, tt);
  }

  pub Keeps-set_string :
      (key value : Text) → IsAllowed c (set_redis key value) → Keeps (set_string sys key value)
  Keeps-set_string key value allowed s h =
      Keeps-outside (sys.redis.set_string key value) (note sys (set_redis key value) s).1
        (Keeps-note (set_redis key value) allowed s h)

  pub Keeps-if :
      {A : Type 0} (b : Bool) (x y : A × State sys)
      → IsSafe (x.1)
      → IsSafe (y.1)
      → IsSafe (if b then x else y).1
  Keeps-if true x y hx hy = hx
  Keeps-if false x y hx hy = hy

  -- What changes none of the three.
  pub Keeps-same :
      (s t : State sys)
      → t.config ≡ s.config
      → t.calls ≡ s.calls
      → t.scheduled ≡ s.scheduled
      → IsSafe s
      → IsSafe t
  Keeps-same s t config calls scheduled h = record {
    configured = config ∙ h.configured;
    calls = subst (All (IsAllowed c)) (sym calls) h.calls;
    scheduled = subst (All IsDelayed) (sym scheduled) h.scheduled;
  }
