-- ===== src/Distributed/Redaction.antt =====
-- src/distributed.rs: `redact_value`, the privacy boundary in front of queue and disk. Whether a
-- text is an IP address is decided by a parser that stands outside the program, a parameter here.
pub mod Paths
use system_pilot.Base.Strings.{
  to_ascii_lowercase, starts_with, ends_with, split_whitespace, trim_matches, rsplit_once, is_u16,
}
use system_pilot.Base.Texts.{text}
use system_pilot.Json.{
  Value, Values, Fields, null, bool, number, string, array, object, no_values, value, no_fields,
  field,
}
use system_pilot.Base.{
  ℕ, Bool, true, false, ◌&&◌, ◌||◌, List, [], ◌∷◌, Option, none, some, Text, text_beq, ◌==◌,
  if◌then◌else◌,
}

pub record RedactionPolicy : Type 0 where
  pub command_arguments : Bool
  pub environment_variables : Bool
  pub paths : Bool
  pub usernames : Bool
  pub ip_addresses : Bool
  pub source_snippets : Bool

-- `RedactionPolicy::default`.
abbrev pub default_policy : RedactionPolicy
default_policy = record {
  command_arguments = true;
  environment_variables = true;
  paths = true;
  usernames = true;
  ip_addresses = true;
  source_snippets = true;
}

-- `matches!(key, …)`.
unfoldable pub is_one_of : Text → List Text → Bool
is_one_of key [] = false
is_one_of key (name ∷ names) = text_beq key name || is_one_of key names

abbrev pub sensitive_lowered : Text → RedactionPolicy → Bool
sensitive_lowered key policy =
    (policy.command_arguments
      && is_one_of key
          (text "args" ∷ text "argv" ∷ text "command" ∷ text "command_line" ∷ text "cmdline" ∷ []))
    || ((policy.environment_variables
          && is_one_of key (text "env" ∷ text "environ" ∷ text "environment_variables" ∷ []))
        || ((policy.paths
              && (text_beq key (text "path")
                  || (ends_with key (text "_path") || ends_with key (text "_paths"))))
            || ((policy.usernames
                  && is_one_of key
                      (text "user" ∷ text "username" ∷ text "user_name" ∷ text "login" ∷ []))
                || ((policy.ip_addresses
                      && (is_one_of key (
                            text "ip"
                            ∷ text "address"
                            ∷ text "remote_addr"
                            ∷ text "local_addr"
                            ∷ [])
                          || ends_with key (text "_ip")))
                    || (policy.source_snippets
                        && is_one_of key (
                            text "source"
                            ∷ text "snippet"
                            ∷ text "source_code"
                            ∷ text "code_snippet"
                            ∷ []))))))

unfoldable pub sensitive_key : Text → RedactionPolicy → Bool
sensitive_key key policy = sensitive_lowered (to_ascii_lowercase key) policy

abbrev pub redacted : Text
redacted = text "[REDACTED]"

-- The characters that are trimmed off a word.
unfoldable pub is_trimmed : ℕ → Bool
is_trimmed c = c == b',' || (c == b';' || (c == b'(' || (c == b')' || (c == b'[' || c == b']'))))

unfoldable pub any_word : (Text → Bool) → List Text → Bool
any_word p [] = false
any_word p (w ∷ ws) = p w || any_word p ws

unfoldable pub contains_path : Text → Bool
contains_path t =
    any_word (λ part. starts_with (trim_matches is_trimmed part) (b'/' ∷ [])) (split_whitespace t)

module _ (is_ip : Text → Bool) where
  -- `rsplit_once(':')` and the test of both sides.
  abbrev pub is_host_and_port : Option (Text × Text) → Bool
  is_host_and_port none = false
  is_host_and_port (some (host, port)) = is_u16 port && is_ip host

  unfoldable pub contains_ip : Text → Bool
  contains_ip t =
      any_word
        (λ part.
          is_ip (trim_matches is_trimmed part)
          || is_host_and_port (rsplit_once b':' (trim_matches is_trimmed part)))
        (split_whitespace t)

  unfoldable pub is_exposed : RedactionPolicy → Text → Bool
  is_exposed policy t = (policy.paths && contains_path t) || (policy.ip_addresses && contains_ip t)

-- `redact_value`, with its loops over arrays and objects.
module _ (is_ip : Text → Bool) (policy : RedactionPolicy) where
  unfoldable mutual
    pub redact_value : Value → Value
    redact_value null = null
    redact_value (bool b) = bool b
    redact_value (number n) = number n
    redact_value (string t) = if is_exposed is_ip policy t then string redacted else string t
    redact_value (array vs) = array (redact_values vs)
    redact_value (object fs) = object (redact_fields fs)

    pub redact_values : Values → Values
    redact_values no_values = no_values
    redact_values (value v vs) = value (redact_value v) (redact_values vs)

    pub redact_fields : Fields → Fields
    redact_fields no_fields = no_fields
    redact_fields (field key child fs) =
        field key (if sensitive_key key policy then string redacted else redact_value child)
          (redact_fields fs)
