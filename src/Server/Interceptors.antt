-- ===== src/Server/Interceptors.antt =====
-- The interceptors and the response codec of internal/server (interceptors.go, response.go).
use azath.Prelude.{
  leb, if◌then◌else◌, length, take, has_suffix, Text, Bytes, codes, zero_bytes, ◌≡◌, refl, sym, ap,
  ◌∙◌, ◌≢◌, ◌⊎◌, inl, inr, true, Option, none, some, [], arith,
}
use azath.Crypto.Primitives.{Primitives}
use azath.Uuid.{UuidLibrary}
use azath.Server.{
  KmsServer, Request, Reply, Entropy, invalid_argument, permission_denied, internal, response,
  status, panicked,
}
use azath.Server.Handlers.{
  random_len, random_response, Ending, ending, unseal, opened, refused, gate_failed, gate_panicked,
}
use azath.Server.Unseal.{Authorised, Authorised-opened, unseal_outcome}
use azath.Server.Unseal.Oracle.{panicked_reply}

-- The codes of google.golang.org/grpc/codes.
pub data StatusCode : Type 0 where
  ok_code canceled unknown invalid_argument_code deadline_exceeded not_found already_exists
        permission_denied_code resource_exhausted failed_precondition aborted out_of_range
        unimplemented internal_code unavailable data_loss unauthenticated :
      StatusCode

pub data Level : Type 0 where
  info warn error_level : Level

-- status.Code(err) of a reply; a panic returns none.
unfoldable pub code_of : Reply → Option StatusCode
code_of (response data') = some ok_code
code_of (status invalid_argument) = some invalid_argument_code
code_of (status permission_denied) = some permission_denied_code
code_of (status internal) = some internal_code
code_of panicked = none

unfoldable pub level_of : StatusCode → Level
level_of ok_code = info
level_of internal_code = error_level
level_of unknown = error_level
level_of data_loss = error_level
level_of _ = warn

-- The attributes of the "rpc" record, less the duration.
pub record LogRecord : Type 0 where
  pub method : Text
  pub code : StatusCode
  pub level : Level
  pub node_uuid_prefix : Option Text

uuid_prefix : Option Request → Option Text
uuid_prefix none = none
uuid_prefix (some req) = if leb 8 (length req.node_uuid) then some (take 8 req.node_uuid) else none

log_with : Text → Option Request → Option StatusCode → Option LogRecord
unfolding uuid_prefix level_of
log_with method req none = none
log_with method req (some code) = some (record {
  method = method;
  code = code;
  level = level_of code;
  node_uuid_prefix = uuid_prefix req;
})

-- loggingInterceptor; nothing is logged when the handler panics.
unfoldable pub logging : Text → Option Request → (Option Request → Reply) → Reply × Option LogRecord
unfolding log_with code_of
logging method req handler = let reply = handler req in (reply, log_with method req (code_of reply))

abbrev pub unseal_suffix : Text
unseal_suffix = codes "/Unseal"

recovered : Entropy → Text → Option Request → Reply → Reply
unfolding random_response
recovered e method req panicked =
    if has_suffix method unseal_suffix then response (random_response e req) else status internal
recovered e method req (response data') = response data'
recovered e method req (status code) = status code

-- panicRecoveryInterceptor around loggingInterceptor, in the order of NewGRPCServer.
unfoldable pub intercept :
    Entropy → Text → Option Request → (Option Request → Reply) → Reply × Option LogRecord
unfolding recovered logging
intercept e method req handler =
    let (reply, log) = logging method req handler in (recovered e method req reply, log)

-- The generated KMS service calls the method with the decoded request.
abbrev pub on_request : (Request → Reply) → Option Request → Reply
on_request handler none = handler (record { node_uuid = []; payload = [] })
on_request handler (some req) = handler req

-- responseCodec.Marshal: the bytes that protobuf makes of the response, none for its error, and
-- what is left in response.Data.
unfoldable pub marshal : (Bytes → Option Bytes) → Bytes → Option Bytes × Bytes
marshal proto payload = (proto payload, zero_bytes payload)

module _ (e : Entropy) (method : Text) (req : Option Request)
    (handler : Option Request → Reply) where
  intercept_response :
      (b : Bytes) → handler req ≡ response b → (intercept e method req handler).0 ≡ response b
  unfolding intercept
  intercept_response b h = rw h

  intercept_panicked :
      has_suffix method unseal_suffix ≡ true
      → handler req ≡ panicked
      → (intercept e method req handler).0 ≡ response (random_response e req)
  unfolding intercept
  intercept_panicked m h = rw (h, m)

  -- Whatever a handler does, the client gets a response or a status, and never sees a panic.
  pub intercept-ne-panicked : (intercept e method req handler).0 ≢ panicked
  unfolding intercept
  intercept-ne-panicked h = ground arith

panicked-cases : (x : Ending) → (x ≡ gate_panicked) ⊎ (x ≢ gate_panicked)
panicked-cases (opened p) = inr (λ h. cc)
panicked-cases (refused r) = inr (λ h. cc)
panicked-cases gate_failed = inr (λ h. cc)
panicked-cases gate_panicked = inl refl

-- The reply of an Unseal RPC as the client sees it, behind the interceptors.
unfoldable pub served : Primitives → UuidLibrary → Entropy → Text → KmsServer → Request → Reply
served c u e method s req =
    (intercept e method (some req) (on_request (λ r. (unseal c u s e r).0))).0

module _ (c : Primitives) (u : UuidLibrary) (e : Entropy) (method : Text)
    (is_unseal : has_suffix method unseal_suffix ≡ true) where
  served_panicked :
      (s : KmsServer) (req : Request)
      → ending c u s e req ≡ gate_panicked
      → served c u e method s req ≡ response (e.fill (random_len req.payload))
  unfolding served
  served_panicked s req p =
      intercept_panicked e method (some req) _ is_unseal (panicked_reply c u s e req p)
      ∙ (unfold random_response in refl)

  -- The oracle contract behind the interceptors. Every reply to an Unseal RPC is a response, never
  -- a status: the plaintext if the request is authorised, and otherwise random data of the length
  -- that the request fixes, also when the gate panics.
  pub served_outcome :
      (s : KmsServer) (req : Request)
      → ((plain : Bytes) × Authorised c u s e req plain
          × (served c u e method s req ≡ response plain))
        ⊎ (((plain : Bytes) → ¬ Authorised c u s e req plain)
            × (served c u e method s req ≡ response (e.fill (random_len req.payload))))
  served_outcome s req = elim (panicked-cases (ending c u s e req)) [
    | inl p ↦
        inr ((λ plain a. cc (p, Authorised-opened c u s e req plain a)), served_panicked s req p)
    | inr n ↦ elim (unseal_outcome c u s e req n) [
      | inl (plain, a, x) ↦ inl (plain, a, passes s req plain (ap (λ r. r.0) x))
      | inr (k, x, y) ↦ inr (k, passes s req _ x)
    ]
  ]
    where
      passes :
          (s : KmsServer) (req : Request) (b : Bytes)
          → (unseal c u s e req).0 ≡ response b
          → served c u e method s req ≡ response b
      passes s req b h = unfold served in intercept_response e method (some req) _ b h

  -- Two servers that do not authorise a request give the same reply to it from the same random
  -- bytes, whatever their keys, devices and gates, and whatever the reason, a panic of the gate
  -- included.
  pub served_alike :
      (s t : KmsServer) (req : Request)
      → ((plain : Bytes) → ¬ Authorised c u s e req plain)
      → ((plain : Bytes) → ¬ Authorised c u t e req plain)
      → served c u e method s req ≡ served c u e method t req
  served_alike s t req n m = elim (served_outcome s req) [
    | inl (plain, a, x) ↦ absurd (n plain a)
    | inr (n', x) ↦ elim (served_outcome t req) [
      | inl (plain, a, y) ↦ absurd (m plain a)
      | inr (m', y) ↦ x ∙ sym y
    ]
  ]
