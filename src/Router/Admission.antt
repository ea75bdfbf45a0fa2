-- ===== src/Router/Admission.antt =====
-- Who gets onto the roster: `register` of src/broker/router.ts.
use claude_ipc.Base.{
  Text, ◌==◌, txt, Bool, true, false, ◌&&◌, not, Option, none, some, ◌≡◌, refl, inl, inr, arith, ap,
  is_some, if◌then◌else◌, Option-cases,
}
use claude_ipc.Aliases.{sanitize_alias}
use claude_ipc.Aliases.Safe.{IsSafe, sanitize_alias-IsSafe}
use claude_ipc.Broker.{Broker, Env}
use claude_ipc.Registry.{Registered, truthy, text_is}
use claude_ipc.Router.Guards.{Code, bad_args, Response, ok, fail, is_reserved}
use claude_ipc.Router.Sessions.{RegisterArgs, register_as, register}

text_is-some : (o : Option Text) (t : Text) → text_is o t ≡ true → o ≡ some t
text_is-some none t h = ground (arith, h)
text_is-some (some s) t h = ground (arith, h)

-- A session may be admitted under this name.
pub record Admissible (a : RegisterArgs) (self : Text) : Type 0 where
  pub asked : truthy a.alias ≡ some self
  pub named : is_some (truthy a.session_id) ≡ true
  pub free : is_reserved self ≡ false
  pub personal : (self == txt "user" && not a.service) ≡ false
  pub safe : IsSafe self

-- A guard that lets a success pass.
guarded :
    {A : Type 0} (b c : Broker) (code : Code) (r : A) (x : Bool) (rest : Broker × Response A)
    → (if x then (b, fail code) else rest) ≡ (c, ok r)
    → (x ≡ false) × (rest ≡ (c, ok r))
guarded b c code r true rest e = ground (arith, e)
guarded b c code r false rest e = (refl, e)

not-false : (x : Bool) → not x ≡ false → x ≡ true
not-false x h = ground (arith, h)

register_as-Admissible :
    (env : Env) (b c : Broker) (a : RegisterArgs) (self sid : Text) (token : Option Text)
    (r : Registered)
    → truthy a.alias ≡ some self
    → truthy a.session_id ≡ some sid
    → register_as env b a self sid token ≡ (c, ok r)
    → Admissible a self
unfolding register_as
register_as-Admissible env b c a self sid token r h k e =
    let (free, e1) = guarded b c bad_args r (is_reserved self) _ e in
    let (personal, e2) = guarded b c bad_args r (self == txt "user" && not a.service) _ e1 in
    let (slugged, e3) = guarded b c bad_args r (not (text_is (sanitize_alias self) self)) _ e2 in
    let t = text_is-some (sanitize_alias self) self (not-false _ slugged) in
    record {
      asked = h;
      named = ap is_some k;
      free = free;
      personal = personal;
      safe = sanitize_alias-IsSafe self self t;
    }

-- A session that `register` admits gave a session id and a name; the name is neither "ipc" nor "*",
-- is "user" only for a service, and is safe to print in a frame or a command as it is.
pub register-Admissible :
    (env : Env) (b c : Broker) (a : RegisterArgs) (token : Option Text) (r : Registered)
    → register env b a token ≡ (c, ok r)
    → (self : Text) × Admissible a self
unfolding register
register-Admissible env b c a token r e = elim (Option-cases (truthy a.alias)) [
  | inl h ↦ ground (arith, h, e)
  | inr (self, h) ↦ elim (Option-cases (truthy a.session_id)) [
    | inl k ↦ ground (arith, h, k, e)
    | inr (sid, k) ↦
        (self, register_as-Admissible env b c a self sid token r h k (ground (arith, h, k, e)))
  ]
]
