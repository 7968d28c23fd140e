-- ===== src/Grpc.antt =====
-- What the handlers return to gRPC: a status code with a message, and the metadata of a context.
use perfect_gift.Prelude.{String, List, [], ◌∷◌}

pub data Code : Type 0 where
  invalid_argument not_found permission_denied unauthenticated resource_exhausted internal
        unavailable :
      Code

-- status.Error(code, message)
pub record Status : Type 0 where
  pub code : Code
  pub message : String

abbrev pub fail_with : Code → String → Status
fail_with c m = record { code = c; message = m }

-- metadata.MD of the incoming context, as its Get.
abbrev pub Metadata : Type 0
Metadata = String → List String

-- v := md.Get(key); v[0] if len(v) > 0, else ""
unfoldable pub first_header : Metadata → String → String
first_header md key = elim (md key) [ [] ↦ "" | v ∷ vs ↦ v ]
