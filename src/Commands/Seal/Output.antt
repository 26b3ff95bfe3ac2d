-- ===== src/Commands/Seal/Output.antt =====
-- What a successful run of the seal command of cmd/azath/seal.go has done.
use azath.Prelude.{ok, length, All, Text, Bytes, lookup, ◌≤◌, ◌≡◌, ◌≢◌, ◌⊎◌, some, [], ◌∷◌, ◌++◌}
use azath.Base64.Standard.{std_encode}
use azath.Fsutil.{Directory, final}
use azath.Client.{NetLibrary, endpoint_target}
use azath.Commands.Seal.{World, Sealing}

-- Where the blob is, as base64: in the output file, whole, or else alone on stdout.
abbrev pub IsWritten : Text → Directory → Bytes → Sealing → Type 0
IsWritten out fs blob s =
    ((out ≢ []) × (lookup out (final fs s.trace) ≡ some (std_encode blob)) × (s.stdout ≡ []))
    ⊎ ((out ≡ []) × (s.trace ≡ []) × (s.stdout ≡ std_encode blob ++ (10 ∷ [])))

-- A secret that was sealed by the endpoint and written.
pub record IsSent (w : World) (net : NetLibrary) (uuid out : Text) (fs : Directory)
    (plaintext : Bytes) (endpoint : Text) (s : Sealing) : Type 0 where
  pub not_empty : 1 ≤ length plaintext
  pub target : Text
  pub targets : endpoint_target net endpoint ≡ ok target
  pub blob : Bytes
  pub answered : w.call target uuid plaintext ≡ some blob
  pub written : IsWritten out fs blob s
  pub wiped : All (λ x. x ≡ 0) s.buffer
