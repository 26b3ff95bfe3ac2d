-- ===== src/Secret.antt =====
-- internal/secret/resolve.go: the resolvers of op:// references. The errors carry no texts.
pub mod Resolved
use mathlib.Core.List.{reverse}
use azath.Prelude.{
  Result, ok, err, ◌==◌, if◌then◌else◌, length, Text, Bytes, codes, contains_byte, zero_bytes, ℕ,
  ◌||◌, Option, none, some, [], ◌∷◌, ◌++◌, map,
}
use azath.Config.Validation.{StandardLibrary, cut_prefix, cut_slash}

pub data SecretError : Type 0 where
  op_exited : ℕ → SecretError
  op_failed empty_output no_prefix bad_format variable_not_set : SecretError

-- How `op read` ends, with its output: it succeeds, exits with a code, or fails in another way.
pub data OpRead : Type 0 where
  succeeds : Bytes → OpRead
  exits : ℕ → Bytes → OpRead
  fails : Bytes → OpRead

-- What Resolve returns, and what the buffer of the output holds then.
pub record Resolving : Type 0 where
  pub result : Result SecretError Bytes
  pub buffer : Bytes

drop_newlines : Bytes → Bytes
drop_newlines [] = []
drop_newlines (c ∷ cs) = let rest = drop_newlines cs in if c == 10 then rest else c ∷ cs

-- bytes.TrimRight(out, "\n")
unfoldable pub trim_newlines : Bytes → Bytes
unfolding drop_newlines
trim_newlines out = reverse (drop_newlines (reverse out))

-- OPResolver.Resolve, after the process has ended.
unfoldable pub op_resolve : OpRead → Resolving
op_resolve (exits code out) = record { result = err (op_exited code); buffer = zero_bytes out }
op_resolve (fails out) = record { result = err op_failed; buffer = zero_bytes out }
op_resolve (succeeds out) =
    if length out == 0
    then record { result = err empty_output; buffer = out }
    else record { result = ok (trim_newlines out); buffer = zero_bytes out }

module _ (lib : StandardLibrary) where
  third_part : Text → Text → Option (Text × Text) → Result SecretError Text
  third_part first rest none = err bad_format
  third_part first rest (some (second, third)) =
      if lib.trims_to_nothing first
        || (lib.trims_to_nothing second || (lib.trims_to_nothing third || contains_byte third b'/'))
      then err bad_format
      else ok third

  -- strings.SplitN(rest, "/", 3), and the tests of its parts.
  split_parts : Option (Text × Text) → Result SecretError Text
  unfolding third_part
  split_parts none = err bad_format
  split_parts (some (first, rest)) = third_part first rest (cut_slash rest)

  after_prefix : Option Text → Result SecretError Text
  unfolding split_parts
  after_prefix none = err no_prefix
  after_prefix (some rest) = split_parts (cut_slash rest)

  -- fieldSegment
  unfoldable pub field_segment : Text → Result SecretError Text
  unfolding after_prefix
  field_segment ref = after_prefix (cut_prefix ref (codes "op://"))

  -- strings.ReplaceAll(field, "-", "_")
  abbrev pub underscores : Text → Text
  underscores = map (λ c. if c == b'-' then b'_' else c)

  module _ (upper : Text → Text) (variable : Text → Text) where
    with_variable : Text → Result SecretError Bytes
    with_variable val = if length val == 0 then err variable_not_set else ok val

    with_field : Result SecretError Text → Result SecretError Bytes
    unfolding with_variable
    with_field (err e) = err e
    with_field (ok field) = with_variable (variable (codes "AZATH_" ++ upper (underscores field)))

    -- EnvResolver.Resolve; `upper` is strings.ToUpper, and `variable` os.Getenv.
    unfoldable pub env_resolve : Text → Result SecretError Bytes
    unfolding with_field
    env_resolve ref = with_field (field_segment ref)
