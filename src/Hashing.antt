-- ===== src/Hashing.antt =====
-- examples/agent-memory-graph/local_agent.py: the content hashes. `hexdigest` is the hexadecimal
-- digest that `hashlib.sha256` computes of some bytes.
use permeant_os.Prelude.{ℕ, String, ◌<>◌, List, [], ◌∷◌}
use permeant_os.Py.Value.{Value, str, dict}
use permeant_os.Py.Text.{encode}
use permeant_os.Py.Json.{dumps}
use permeant_os.Constants.{root_signature_algorithm, security_policy_version}

module _ (hexdigest : List ℕ → String) where
  unfoldable pub sha256_bytes : List ℕ → String
  sha256_bytes bytes = "sha256:" <> hexdigest bytes

  unfoldable pub sha256_json : Value → String
  unfolding sha256_bytes
  sha256_json value = sha256_bytes (encode (dumps value))

  unfoldable pub graph_root_signature : Value → Value → String
  graph_root_signature graph_hash signer_id = sha256_json (
      dict (
        ("algorithm", str root_signature_algorithm)
        ∷ ("graph_hash", graph_hash)
        ∷ ("policy_version", str security_policy_version)
        ∷ ("signer_id", signer_id)
        ∷ []))
