-- ===== src/Lib.antt =====
-- PermeantOS exports the session of an agent as a package, a graph of its memory, a manifest and
-- the blobs of its artifacts, which another runtime verifies, restores and resumes. This library
-- models the reference implementation, examples/agent-memory-graph/local_agent.py, the metadata that
-- ties a graph to the KV caches of a model, adapters/agent_graph_span_metadata.py, and of
-- adapters/vllm_live_runtime_registry.py the write of such a cache into a runtime.
--
-- Prelude has the shared names and lemmas. Py models what the source uses of Python: JSON values
-- (Py.Value), exceptions (Py.Result), dictionaries (Py.Dict), texts (Py.Text), `json.dumps` with
-- sorted keys (Py.Json, Py.Indent), `pathlib` (Py.Path), `==` and sets (Py.Equal), and the sorted
-- list of a set of texts (Py.SortedSet). The other modules are the parts of the three files, with a
-- function for each function of the source, under its name. Those of local_agent.py are:
--   Constants, the module's constants;
--   Hashing, `sha256_bytes`, `sha256_json` and `graph_root_signature`;
--   Graph, `canonical_graph_hash`, `verify_graph`, the nodes, and the mutations of a graph, which
--     return the changed graph;
--   Audit, `audit_tool_replay_safety` and `reject_unsafe_tool_replay`;
--   Paths, the paths of blobs and of restored files, and the allowed prefixes;
--   Secrets, `find_forbidden_secret_material`;
--   Security, `build_security_attestation` and `validate_security_policy`;
--   Files, the files by their paths, and the two functions that stream one;
--   Artifacts, the manifest entries of artifacts, `verify_artifacts` and `restore_artifacts`;
--   Prompt, the prompt of a session and of a graph, its tokens and their hashes;
--   Embeddings, the embeddings of texts, over an interface of float operations;
--   VectorMemory, `build_vector_snapshot` and `validate_vector_memory`;
--   Export, `build_graph` and the nodes that it makes, and the package that `export_session` writes
--     (Export.Package);
--   Import, `import_session`, which runs the checks of the other modules in turn and restores the
--     artifacts;
--   Resume, `resume_imported_agent`: the graph's changes (Resume.Work) and the files it writes;
--   ReturnHome, `return_home_after_target_resume`: the checks of the target's evidence
--     (ReturnHome.Checks), the changes of the graph (ReturnHome.Work) and the files it writes;
--   Complex, the complex session, `extend_graph_for_complex_agent` and `export_complex_session`.
-- SpanMetadata is agent_graph_span_metadata.py: `build_prompt_span_metadata`, and in
-- SpanMetadata.Validate `validate_prompt_span_metadata`. Of vllm_live_runtime_registry.py,
--   KvCache has `_layer_block_views`, `_combined_layout`, `_combined_target_indices` and
--     `_combined_target_block_count`; KvCache.Write has `_write_combined_cache`, by its four loops,
--     KvCache.Separate `_write_separate_cache`, KvCache.Samples `_sample_points` and
--     `_combined_slot_samples`, and KvCache.Shape the loop of `_shape_of_storage`;
--   HashRegistry has `_store_hash`, `_note_runtime_hash`, `_verify_from_state` and
--     `_direct_verify_runtime`, over the hashes of the process and the state file.
-- Graph and Hashing are under everything; Security uses Graph, Paths and Secrets; Artifacts uses
-- Paths and Files; Export uses Graph, Artifacts, Embeddings and Prompt; Import is over them all,
-- and Resume and ReturnHome over Import; Complex extends Export. SpanMetadata, KvCache and
-- HashRegistry use Py, and SpanMetadata uses Prompt and Hashing.
--
-- The state that the source keeps is a graph, a JSON object that it mutates, and the files. Both
-- are passed from step to step. An exception is a value, and where a step that writes files raises,
-- the files that it leaves are returned with the exception. A KV cache is a tensor, its shape and
-- its elements by their indices; the type of the elements is a parameter.
--
-- The hexadecimal SHA-256 digest is a parameter, `hexdigest`, of which nothing is assumed, but in
-- SpanMetadata.Roundtrip that it gives 64 hexadecimal digits. So are the float operations, their
-- order `above`, of which VectorMemory.Ranking supposes that it never holds both ways, as `>` of
-- floats does not, the parser of JSON `loads`, `parse_int`, what `int` makes of a float or a text,
-- and `show`, the text that an f-string makes of an object that is no text. Three loops run on
-- fuel. The one that reads a file in chunks, and in a copy writes each, has one round more than
-- the file has bytes, and each round but the last consumes at least one. The one that prints a
-- number has one round more than the number, which has fewer digits. The one that follows nested
-- storage has a round for each list that it passes, and one more. A float is its `repr`, an
-- integer a natural number or a negative one. Directories, links and permissions are not modelled,
-- nor the text of an error's message beyond its fixed part and the objects that it prints.
--
-- A text is a `String`, whose characters are Unicode scalar values. A Python text may hold lone
-- surrogates too, which `json.loads` makes of an escape "\ud800", and of which `encode("utf-8")`
-- raises UnicodeEncodeError. `tokenize_code_points` is `tokenize_prompt` with this error, of the
-- code points of any Python text. All other functions, so export, import, resume and return home,
-- are modelled on values without lone surrogates: there the encoding of a text is total, and this
-- error of theirs is not modelled.
--
-- Not modelled of the registry are the lookup of a runtime and the calls of its methods, the
-- previews, the allocation of blocks, rows of a cache that two indices share, a cache that is its
-- own key and value cache, the half-written cache that a raise leaves, and the samples of a source
-- of no heads, dimensions or tokens. The floats of the samples are a parameter, and the theorem on
-- them supposes that the distance of each number of the layer from itself is within the bound, as
-- that of a finite number is. The other adapters, the adapters of agent frameworks, the scripts,
-- the SDK and the Rust crates are not modelled; nor is the parsing of the command line.
pub mod Prelude
pub mod Py
pub mod Constants
pub mod Hashing
pub mod Graph
pub mod Audit
pub mod Paths
pub mod Secrets
pub mod Security
pub mod Files
pub mod Prompt
pub mod Embeddings
pub mod VectorMemory
pub mod Export
pub mod Artifacts
pub mod Import
pub mod Resume
pub mod ReturnHome
pub mod Complex
pub mod SpanMetadata
pub mod KvCache
pub mod HashRegistry
pub mod Tests
