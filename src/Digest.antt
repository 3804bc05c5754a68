-- ===== src/Digest.antt =====
-- `hashlib.sha256(json.dumps(payload, sort_keys=True, separators=(",", ":")).encode()).hexdigest()`:
-- the hash and the JSON encoder are not in the repository, so the composed function of the payload is
-- a parameter of every definition that makes an identifier.
use lang_sop.Base.{String, List}

pub data JsonValue : Type 0 where
  text_value : String → JsonValue
  texts_value : List String → JsonValue

-- The items of the payload, in the order of their keys.
abbrev pub Payload : Type 0
Payload = List (String × JsonValue)

abbrev pub Digest : Type 0
Digest = Payload → String
