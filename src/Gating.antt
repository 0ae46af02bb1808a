-- ===== src/Gating.antt =====
-- The gate on the version of a client: pkg/api/gating.go, with the requester info of
-- pkg/api/message/v1/context/context.go.
--
-- Versions are compared by the semver library, a parameter.
use xmtp_node_go.Base.{
  All, Bool, Bytes, List, Option, Result, [], ap, codes, err, false, if◌then◌else◌, none, not, refl,
  some, ◌++◌, ◌==◌, ◌||◌, ◌∷◌, ◌≡◌, nat_eq, bytes_eq,
}

-- The bytes before the first slash, and those between it and the next.
pub first_part : Bytes → Bytes
first_part [] = []
first_part (b ∷ bs) = let rest = first_part bs in if b == 47 then [] else b ∷ rest

pub after_slash : Bytes → Bytes
after_slash [] = []
after_slash (b ∷ bs) = let rest = after_slash bs in if b == 47 then bs else rest

pub record VersionHeader : Type 0 where
  pub name : Bytes
  pub version : Bytes
  pub full : Bytes

pub parse_version_header_value : List Bytes → VersionHeader
unfolding first_part after_slash
parse_version_header_value [] = record { name = []; version = []; full = [] }
parse_version_header_value (full ∷ _) = record {
  name = first_part full;
  version = first_part (after_slash full);
  full = full;
}

normalized : Bytes → Bytes
normalized [] = codes "v"
normalized (b ∷ bs) = if b == 118 then b ∷ bs else codes "v" ++ b ∷ bs

pub data GatingError : Type 0 where
  unsupported_version : GatingError

-- Whether a version is one, whether a version is another or a later one, and whether the node runs in
-- production.
module _ (is_valid : Bytes → Bool) (at_least : Bytes → Bytes → Bool) (production : Bool) where
  pub is_supported_client : Bytes → Bool
  unfolding normalized
  is_supported_client libxmtp_version =
      not production
      || (not (is_valid (normalized libxmtp_version))
          || at_least (normalized libxmtp_version) (codes "v1.1.5"))

  -- The values of the version header of libxmtp; `none` is a call without metadata, whose info is
  -- that of zero values.
  pub supported_of : Option (List Bytes) → Bool
  unfolding is_supported_client parse_version_header_value
  supported_of none = false
  supported_of (some values) = is_supported_client (parse_version_header_value values).full

  -- Unary and Stream: a handler runs only for a supported client.
  pub gate : {A E : Type 0} → (GatingError → E) → Option (List Bytes) → Result E A → Result E A
  unfolding supported_of
  gate refuse metadata handler =
      if supported_of metadata then handler else err (refuse unsupported_version)

first_part-name :
    (name rest : Bytes) → All (λ b. (b == 47) ≡ false) name → first_part (name ++ 47 ∷ rest) ≡ name
unfolding first_part
first_part-name [] rest h = refl
first_part-name (b ∷ name) rest h = rw (h.0) (ap (λ xs. b ∷ xs) (first_part-name name rest h.1))

after_slash-rest :
    (name rest : Bytes) → All (λ b. (b == 47) ≡ false) name → after_slash (name ++ 47 ∷ rest) ≡ rest
unfolding after_slash
after_slash-rest [] rest h = refl
after_slash-rest (b ∷ name) rest h = rw (h.0) (after_slash-rest name rest h.1)

first_part-whole : (part : Bytes) → All (λ b. (b == 47) ≡ false) part → first_part part ≡ part
unfolding first_part
first_part-whole [] h = refl
first_part-whole (b ∷ part) h = rw (h.0) (ap (λ xs. b ∷ xs) (first_part-whole part h.1))

-- A header that joins a name and a version by a slash, neither of which has one, is parsed into both.
parse_version_header_value_lem :
    (name version : Bytes) (others : List Bytes)
    → All (λ b. (b == 47) ≡ false) name
    → All (λ b. (b == 47) ≡ false) version
    → parse_version_header_value ((name ++ 47 ∷ version) ∷ others)
      ≡ record { name = name; version = version; full = name ++ 47 ∷ version }
unfolding parse_version_header_value
parse_version_header_value_lem name version others hn hv =
    rw
      (
        first_part-name name version hn,
        after_slash-rest name version hn,
        first_part-whole version hv,
      )
      refl

-- Outside production every call with metadata passes.
gate_open :
    {A E : Type 0} (is_valid : Bytes → Bool) (at_least : Bytes → Bytes → Bool)
    (refuse : GatingError → E) (values : List Bytes) (handler : Result E A)
    → gate is_valid at_least false refuse (some values) handler ≡ handler
unfolding gate supported_of is_supported_client
gate_open is_valid at_least refuse values handler = refl
