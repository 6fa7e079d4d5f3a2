-- ===== src/Import/Accepted.antt =====
-- What a package has passed when `import_session` writes its artifacts, and when it returns.
use permeant_os.Prelude.{refl, ℕ, String, ◌≡◌, List, All, ap, ◌∙◌, subst}
use permeant_os.Py.Value.{text_of, Value, str}
use permeant_os.Py.Result.{Result, ok, >>=-eq-ok, ok-injective}
use permeant_os.Py.Dict.{get_item}
use permeant_os.Py.Path.{PurePath, child, path}
use permeant_os.Graph.{verify_graph, nodes_of_type, canonical_graph_hash}
use permeant_os.Graph.Seal.{verify_graph_iff}
use permeant_os.Audit.{Entry, audit_tool_replay_safety, reject_unsafe_tool_replay, audit_nodes}
use permeant_os.Audit.Graphs.{IsAllowed, reject_unsafe_tool_replay_sound}
use permeant_os.Paths.{safe_package_relative_path}
use permeant_os.Security.{validate_security_policy}
use permeant_os.Security.Policy.{Accepted, validate_security_policy_sound}
use permeant_os.Security.Tests.{text_known}
use permeant_os.Files.{Files}
use permeant_os.Artifacts.{verify_artifacts}
use permeant_os.Embeddings.{Floats}
use permeant_os.VectorMemory.{validate_vector_memory}
use permeant_os.Import.{
  Checked, check_package, read_json, Bool, check_hashes, Continued, check_continuation, reject_if,
  reconstruct_prompt, not, sha256_bytes, token_hash, is_str, encode, tokenize_prompt,
  simulated_kv_hash, first_item, deterministic_continue,
}

-- The manifest names the three hashes.
pub record Named (manifest : Value) (byte_hash prompt_token_hash kv_hash : String) : Type 0 where
  pub prompt : Value
  pub prompt_field : get_item manifest "prompt" ≡ ok prompt
  pub bytes_named : get_item prompt "byte_hash" ≡ ok (str byte_hash)
  pub tokens_named : get_item prompt "token_hash" ≡ ok (str prompt_token_hash)
  pub kv : Value
  pub kv_field : get_item manifest "kv" ≡ ok kv
  pub cache_named : get_item kv "kv_hash" ≡ ok (str kv_hash)

check_hashes_sound :
    (manifest : Value) (byte_hash prompt_token_hash kv_hash : String)
    → check_hashes manifest byte_hash prompt_token_hash kv_hash ≡ ok tt
    → Named manifest byte_hash prompt_token_hash kv_hash
unfolding check_hashes
check_hashes_sound manifest byte_hash prompt_token_hash kv_hash h =
    let (prompt, e1, h1) = >>=-eq-ok (get_item manifest "prompt") _ h in
    let (b, e2, h2) = >>=-eq-ok (get_item prompt "byte_hash") _ h1 in
    let (_, p1, h3) = >>=-eq-ok (reject_if (not (is_str b byte_hash)) _) _ h2 in
    let (t, e3, h4) = >>=-eq-ok (get_item prompt "token_hash") _ h3 in
    let (_, p2, h5) = >>=-eq-ok (reject_if (not (is_str t prompt_token_hash)) _) _ h4 in
    let (kv, e4, h6) = >>=-eq-ok (get_item manifest "kv") _ h5 in
    let (k, e5, h7) = >>=-eq-ok (get_item kv "kv_hash") _ h6 in
    record {
      prompt = prompt;
      prompt_field = e1;
      bytes_named = e2 ∙ ap ok (text_known b _ _ p1);
      tokens_named = e3 ∙ ap ok (text_known t _ _ p2);
      kv = kv;
      kv_field = e4;
      cache_named = e5 ∙ ap ok (text_known k _ _ h7);
    }

module _ (loads : List ℕ → Result Value) (floats : Floats) (above : String → String → Bool)
    (hexdigest : List ℕ → String) (show : Value → String) where
  -- A package that may be restored: its graph is the file below the package that its manifest names,
  -- and has the hash that the manifest names, the security policy accepts both, no tool call of the
  -- graph is an unsafe one, the vector memory and the blobs were verified.
  pub record Trusted (package_dir : PurePath) (target : String) (fs : Files) (c : Checked)
      : Type 0 where
    pub manifest_read :
        read_json loads (child package_dir (path "manifest.json")) fs ≡ ok c.manifest
    pub graph_path : Value
    pub graph_path_field : get_item c.manifest "graph_path" ≡ ok graph_path
    pub relative : PurePath
    pub graph_path_safe : safe_package_relative_path graph_path ≡ ok relative
    pub graph_read : read_json loads (child package_dir relative) fs ≡ ok c.graph
    pub hash : String
    pub hash_computed : canonical_graph_hash hexdigest c.graph ≡ ok hash
    pub hash_named : get_item c.manifest "graph_hash" ≡ ok (str hash)
    pub hash_carried : get_item c.graph "graph_hash" ≡ ok (str hash)
    pub accepted : Accepted hexdigest c.graph c.manifest target
    pub security_reported :
        validate_security_policy hexdigest c.graph c.manifest target ≡ ok c.security
    pub audited : audit_tool_replay_safety c.graph ≡ ok c.side_effect_audit
    pub calls : List Value
    pub calls_listed : nodes_of_type "tool_call" c.graph ≡ ok calls
    pub calls_allowed : All (IsAllowed c.graph) calls
    pub memory_verified :
        validate_vector_memory floats above hexdigest show c.graph c.manifest ≡ ok c.vector_memory
    pub blobs_verified :
        verify_artifacts hexdigest package_dir c.manifest fs ≡ ok c.verified_artifacts

  calls_of :
      (graph : Value) (es : List Entry)
      → audit_tool_replay_safety graph ≡ ok es
      → (calls : List Value) × (nodes_of_type "tool_call" graph ≡ ok calls)
  unfolding audit_tool_replay_safety
  calls_of graph es h =
      let (calls, e, _) = >>=-eq-ok (nodes_of_type "tool_call" graph) (audit_nodes graph) h in
      (calls, e)

  pub check_package_sound :
      (package_dir : PurePath) (target : String) (fs : Files) (c : Checked)
      → check_package loads floats above hexdigest show package_dir target fs ≡ ok c
      → Trusted package_dir target fs c
  unfolding check_package
  check_package_sound package_dir target fs c h =
      let (m, e1, h1) =
        >>=-eq-ok (read_json loads (child package_dir (path "manifest.json")) fs) _ h in
      let (p, e2, h2) = >>=-eq-ok (get_item m "graph_path") _ h1 in
      let (r, e3, h3) = >>=-eq-ok (safe_package_relative_path p) _ h2 in
      let (g, e4, h4) = >>=-eq-ok (read_json loads (child package_dir r) fs) _ h3 in
      let (x, e5, h5) = >>=-eq-ok (get_item m "graph_hash") _ h4 in
      let (_, e6, h6) = >>=-eq-ok (verify_graph hexdigest g x) _ h5 in
      let (s, e7, h7) = >>=-eq-ok (validate_security_policy hexdigest g m target) _ h6 in
      let (a, e8, h8) = >>=-eq-ok (audit_tool_replay_safety g) _ h7 in
      let (_, e9, h9) = >>=-eq-ok (reject_unsafe_tool_replay a) _ h8 in
      let (v, e10, h10) = >>=-eq-ok (validate_vector_memory floats above hexdigest show g m) _ h9 in
      let (b, e11, h11) = >>=-eq-ok (verify_artifacts hexdigest package_dir m fs) _ h10 in
      let (hash, q1, q2, q3) = (verify_graph_iff hexdigest g x).0 e6 in
      let (calls, k) = calls_of g a e8 in
      subst (Trusted package_dir target fs) (ok-injective _ c h11) (record {
        manifest_read = e1;
        graph_path = p;
        graph_path_field = e2;
        relative = r;
        graph_path_safe = e3;
        graph_read = e4;
        hash = hash;
        hash_computed = q1;
        hash_named = e5 ∙ ap ok q2;
        hash_carried = q3;
        security_reported = e7;
        audited = e8;
        accepted = validate_security_policy_sound hexdigest g m target s e7;
        calls = calls;
        calls_listed = k;
        calls_allowed = reject_unsafe_tool_replay_sound g calls a k e8 e9;
        memory_verified = e10;
        blobs_verified = e11;
      })

  -- The continuation that an import reports: the manifest's hashes are those of the prompt that the
  -- graph holds, and its next response is the one that follows from that prompt and the digest of the
  -- manifest's first artifact.
  pub record Resumable (c : Checked) (r : Continued) : Type 0 where
    pub prompt : String
    pub reconstructed : reconstruct_prompt show c.graph ≡ ok prompt
    pub byte_hash : r.prompt_byte_hash ≡ sha256_bytes hexdigest (encode prompt)
    pub hashed : token_hash hexdigest (tokenize_prompt prompt) ≡ ok r.prompt_token_hash
    pub cached : simulated_kv_hash hexdigest (tokenize_prompt prompt) ≡ ok r.kv_hash
    pub named : Named c.manifest r.prompt_byte_hash r.prompt_token_hash r.kv_hash
    pub artifacts : Value
    pub artifacts_field : get_item c.manifest "artifacts" ≡ ok artifacts
    pub first : Value
    pub first_artifact : first_item artifacts ≡ ok first
    pub artifact_hash : Value
    pub artifact_hash_field : get_item first "sha256" ≡ ok artifact_hash
    pub follows :
        r.deterministic_next_response
        ≡ deterministic_continue hexdigest prompt (text_of show artifact_hash)
    pub response :
        get_item c.manifest "deterministic_next_response" ≡ ok (str r.deterministic_next_response)

  pub check_continuation_sound :
      (c : Checked) (r : Continued)
      → check_continuation loads floats above hexdigest show c.graph c.manifest ≡ ok r
      → Resumable c r
  unfolding check_continuation
  check_continuation_sound c r h =
      let (prompt, e1, h1) = >>=-eq-ok (reconstruct_prompt show c.graph) _ h in
      let (t, e2, h2) = >>=-eq-ok (token_hash hexdigest (tokenize_prompt prompt)) _ h1 in
      let (k, e3, h3) = >>=-eq-ok (simulated_kv_hash hexdigest (tokenize_prompt prompt)) _ h2 in
      let byte_hash : String = sha256_bytes hexdigest (encode prompt) in
      let (_, e4, h4) = >>=-eq-ok (check_hashes c.manifest byte_hash t k) _ h3 in
      let (artifacts, a1, h5) = >>=-eq-ok (get_item c.manifest "artifacts") _ h4 in
      let (first, a2, h6) = >>=-eq-ok (first_item artifacts) _ h5 in
      let (a, a3, h7) = >>=-eq-ok (get_item first "sha256") _ h6 in
      let (x, e5, h8) = >>=-eq-ok (get_item c.manifest "deterministic_next_response") _ h7 in
      let next : String = deterministic_continue hexdigest prompt (text_of show a) in
      let (_, p, h9) = >>=-eq-ok (reject_if (not (is_str x next)) _) _ h8 in
      subst (Resumable c) (ok-injective _ r h9) (record {
        prompt = prompt;
        reconstructed = e1;
        byte_hash = refl;
        hashed = e2;
        cached = e3;
        named = check_hashes_sound c.manifest byte_hash t k e4;
        artifacts = artifacts;
        artifacts_field = a1;
        first = first;
        first_artifact = a2;
        artifact_hash = a;
        artifact_hash_field = a3;
        follows = refl;
        response = e5 ∙ ap ok (text_known x _ _ p);
      })
