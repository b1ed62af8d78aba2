-- ===== src/Errors.antt =====
-- sdk/node/src/errors.ts: the classes of errors, and the middleware of every call.
use meta_go.Prelude.{ℕ, String, ◌≡◌, refl, ap, ◌∙◌, subst}

-- The SDK's own classes, the built-in ones that it throws, nice-grpc's ClientError, and any other value.
pub data JsError : Type 0 where
  meta_error : String → JsError
  meta_rpc_error : (path : String) (code : ℕ) (details : String) → JsError
  unsupported_capability_error : (capability : String) → JsError
  runtime_launch_error : String → JsError
  protocol_mismatch_error : (expected actual : ℕ) → JsError
  event_buffer_overflow_error : (limit : ℕ) → JsError
  type_error : String → JsError
  range_error : String → JsError
  client_error : (path : String) (code : ℕ) (details : String) → JsError
  foreign : ℕ → JsError

pub data Result {ℓ} (A : Type ℓ) : Type ℓ where
  ok : A → Result A
  err : JsError → Result A

infixl 5 ◌>>=◌
abbrev pub ◌>>=◌ {ℓ κ} : {A : Type ℓ} {B : Type κ} → Result A → (A → Result B) → Result B
ok a >>= f = f a
err e >>= f = err e

unfoldable pub map_rpc_error : JsError → JsError
map_rpc_error (client_error path code details) = meta_rpc_error path code details
map_rpc_error e = e

-- `try { return yield* call.next(…) } catch (error) { throw mapRpcError(error) }`.
unfoldable pub error_middleware {ℓ} : {A : Type ℓ} → Result A → Result A
unfolding map_rpc_error
error_middleware (ok a) = ok a
error_middleware (err e) = err (map_rpc_error e)

-- A statement that may throw, before the rest of a function.
infixl 5 ◌>>◌
abbrev pub ◌>>◌ {ℓ} : {A : Type ℓ} → Result (Unit {0}) → Result A → Result A
check >> rest = check >>= λ u. rest

abbrev pub IsClientError : JsError → Type 0
IsClientError (client_error path code details) = Unit
IsClientError e = ⊥

pub not-IsClientError : (e : JsError) → ¬ IsClientError (map_rpc_error e)
unfolding map_rpc_error
not-IsClientError (meta_error m) h = h
not-IsClientError (client_error p c d) h = h
not-IsClientError e h = h

map_rpc_error-twice : (x : JsError) → map_rpc_error (map_rpc_error x) ≡ map_rpc_error x
unfolding map_rpc_error
map_rpc_error-twice (client_error p c d) = refl
map_rpc_error-twice x = refl

err-injective {ℓ} : {A : Type ℓ} {x y : JsError} → Path (Result A) (err x) (err y) → x ≡ y
err-injective h = cc

mapped : (x e : JsError) → map_rpc_error x ≡ e → (¬ IsClientError e) × (map_rpc_error e ≡ e)
mapped x e h = (
  subst (λ y. ¬ IsClientError y) h (not-IsClientError x),
  subst (λ y. map_rpc_error y ≡ y) h (map_rpc_error-twice x),
)

-- What a call throws through the middleware is no ClientError of the transport, and a second middleware
-- leaves it as it is.
pub error_middleware_lem {ℓ} :
    {A : Type ℓ} (r : Result A) (e : JsError)
    → error_middleware r ≡ err e
    → (¬ IsClientError e) × (error_middleware (error_middleware r) ≡ err e)
unfolding error_middleware map_rpc_error
error_middleware_lem (ok a) e h = absurd (ok≢err h)
  where
    ok≢err : {B : Type ℓ} {b : B} {x : JsError} → ¬ (ok b ≡ err x)
    ok≢err h = cc
error_middleware_lem (err x) e h = (c.0, ap err (ap map_rpc_error y ∙ c.1))
  where
    y : map_rpc_error x ≡ e
    y = err-injective h

    c : (¬ IsClientError e) × (map_rpc_error e ≡ e)
    c = mapped x e y
